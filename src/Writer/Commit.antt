-- ===== src/Writer/Commit.antt =====
-- The end of a load that has the room to write: its footer becomes the table's.
use cstore_fdw.Prelude.{
  ℕ, suc, ◌+◌, ◌-◌, ◌%◌, ◌^◌, ◌≤◌, ◌≡◌, refl, sym, ap, ◌∙◌, none, arith, length,
}
use cstore_fdw.Result.{Result, ok}
use cstore_fdw.Postgres.{TupleMacros}
use cstore_fdw.Compression.{Pglz}
use cstore_fdw.Disk.{Disk, call}
use cstore_fdw.Protobuf.{Protobuf, ProtobufLaws}
use cstore_fdw.Metadata.Footers.{IsFooter}
use cstore_fdw.FooterFile.Write.{sync_and_close_file, postscript_bytes}
use cstore_fdw.FooterFile.Write.Effects.{OnTemp-write_footer, write_footer-Holds}
use cstore_fdw.FooterFile.Read.{read_footer}
use cstore_fdw.FooterFile.RoundTrip.{IsSmall, read_footer-file_bytes}
use cstore_fdw.Writer.{TableWriteState}
use cstore_fdw.Writer.Rows.{flush_rest, commit_footer, end_write}

sync-at :
    (d : Disk) (n : ℕ) → d.credit ≡ suc n → sync_and_close_file d ≡ (ok tt, record d { credit = n })
unfolding sync_and_close_file call
sync-at d n e = rw e refl

module _ (macros : TupleMacros) (pglz : Pglz) (protobuf : Protobuf)
    (laws : ProtobufLaws protobuf) where
  open macros use {Datum}

  commit_footer-at :
      (d : Disk) (n : ℕ)
      → n + 1 ≤ d.credit
      → (d' : Disk) × (commit_footer macros pglz protobuf d ≡ (ok tt, d'))
        × (d'.footer_file ≡ d.temp_footer_file)
        × (d'.data_file ≡ d.data_file)
  unfolding commit_footer call
  commit_footer-at d n h = (
    record d { footer_file = d.temp_footer_file; temp_footer_file = none; credit = d.credit - 1 },
    ground arith,
    refl,
    refl,
  )

  -- Where the last stripe has been flushed and seven more calls succeed, a load ends well, the
  -- footer that is read from the table's footer file is the load's, and the data file is as the
  -- flush left it.
  pub end_write-read_footer :
      (w w' : TableWriteState Datum) (d d' : Disk)
      → flush_rest macros pglz protobuf w w.stripe d ≡ (ok w', d')
      → IsFooter w'.table_footer
      → IsSmall protobuf laws w'.table_footer
      → 7 ≤ d'.credit
      → let (r, d'') = end_write macros pglz protobuf w d in
        (r ≡ ok tt)
        × (read_footer protobuf d''.footer_file ≡ ok w'.table_footer)
        × (d''.data_file ≡ d'.data_file)
  unfolding end_write
  end_write-read_footer w w' d d' flushed fits small enough =
      let d1 : Disk = record d' { credit = d'.credit - 1 } in
      let synced = sync-at d' (d'.credit - 1) (omega arith) in
      let (d2, written, held) = write_footer-Holds protobuf w'.table_footer d1 1 (omega arith) in
      let same = OnTemp-write_footer protobuf w'.table_footer d1 in
      let (d3, renamed, new, kept) = commit_footer-at d2 0 (omega (arith, held.left)) in
      rw (flushed, synced, written, renamed)
        (
          refl,
          rw (new, held.temp, whole)
              (read_footer-file_bytes protobuf laws w'.table_footer fits small),
          kept
              ∙ sym (ap (λ (p : Result (Unit {0}) × Disk). p.1.data_file) written)
              ∙ same.same_data,
        )
    where
      whole :
          length (postscript_bytes protobuf w'.table_footer) % 2 ^ 8
          ≡ length (postscript_bytes protobuf w'.table_footer)
      whole = omega (arith, small.postscript_small)
