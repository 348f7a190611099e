-- ===== src/FooterFile/Write.antt =====
-- `CStoreWriteFooter` (cstore_writer.c): the table footer, the postscript, and the postscript's size
-- as the last byte.
pub mod Effects
use cstore_fdw.Prelude.{
  ℕ, ◌+◌, ◌-◌, ◌%◌, ◌^◌, Option, none, some, List, [], ◌∷◌, ◌++◌, ltb, length, get_or,
}
use cstore_fdw.Result.{ok, could_not_open, could_not_write, could_not_sync}
use cstore_fdw.Disk.{Disk, Io, call, content_of, ◌>>=◌, ◌>>◌}
use cstore_fdw.Protobuf.{Protobuf}
use cstore_fdw.Types.{TableFooter}
use cstore_fdw.Metadata.{serialize_post_script, serialize_table_footer}

-- `WriteToFile` to the temporary footer file, which is written from its start to its end
unfoldable pub write_to_temp : List ℕ → Io (Unit {0})
unfolding call
write_to_temp [] d = (ok tt, d)
write_to_temp (b ∷ bytes) d =
    call could_not_write
      (λ d. record d { temp_footer_file = some (content_of d.temp_footer_file ++ b ∷ bytes) }) d

-- `AllocateFile` with `PG_BINARY_W` empties the file or makes it.
unfoldable pub open_temp : Io (Unit {0})
unfolding call
open_temp = call could_not_open (λ d. record d { temp_footer_file = some [] })

-- `SyncAndCloseFile`
unfoldable pub sync_and_close_file : Io (Unit {0})
unfolding call
sync_and_close_file = call could_not_sync (λ d. d)

module _ (protobuf : Protobuf) where
  -- what the three writes put into the file; the size is a `uint8`
  abbrev pub footer_bytes : TableFooter → List ℕ
  footer_bytes footer = serialize_table_footer protobuf footer

  abbrev pub postscript_bytes : TableFooter → List ℕ
  postscript_bytes footer = serialize_post_script protobuf (length (footer_bytes footer))

  unfoldable pub write_footer : TableFooter → Io (Unit {0})
  write_footer footer = do
    open_temp
    write_to_temp (footer_bytes footer)
    write_to_temp (postscript_bytes footer)
    write_to_temp (length (postscript_bytes footer) % 2 ^ 8 ∷ [])
    sync_and_close_file
