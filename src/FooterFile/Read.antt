-- ===== src/FooterFile/Read.antt =====
-- `CStoreReadFooter` (cstore_reader.c).
use cstore_fdw.Prelude.{ℕ, ◌+◌, ◌-◌, ◌%◌, ◌^◌, Option, List, ltb, length, get_or}
use cstore_fdw.Result.{
  Result, could_not_open, invalid_cstore_file, invalid_postscript_size, invalid_footer_size,
  require, fail_if, ◌>>=◌, ◌>>◌,
}
use cstore_fdw.Disk.{read_from_file}
use cstore_fdw.Protobuf.{Protobuf}
use cstore_fdw.Types.{TableFooter}
use cstore_fdw.Metadata.{deserialize_post_script, deserialize_table_footer}

-- `CSTORE_POSTSCRIPT_SIZE_LENGTH`
abbrev pub postscript_size_length : ℕ
postscript_size_length = 1

-- The footer file's content is `none` where the file cannot be opened. Offsets and lengths are
-- `uint64`s, and the postscript's size is the `uint8` in the last byte.
unfoldable pub read_footer : Protobuf → Option (List ℕ) → Result TableFooter
read_footer protobuf file = do
  content ← require file could_not_open
  let size = length content
  fail_if (ltb size postscript_size_length) invalid_cstore_file
  size_buffer ← read_from_file content (size - postscript_size_length) postscript_size_length
  let postscript_size = get_or size_buffer 0 0
  fail_if (ltb size (postscript_size + postscript_size_length)) invalid_postscript_size
  let postscript_offset = size - (postscript_size_length + postscript_size)
  postscript ← read_from_file content postscript_offset postscript_size
  footer_length ← deserialize_post_script protobuf postscript
  fail_if (ltb size ((footer_length + postscript_size + postscript_size_length) % 2 ^ 64))
      invalid_footer_size
  let footer_offset = (postscript_offset + 2 ^ 64 - footer_length) % 2 ^ 64
  footer ← read_from_file content footer_offset footer_length
  deserialize_table_footer protobuf footer
