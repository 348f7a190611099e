-- ===== src/Tests/Commit.antt =====
-- The theorem on the end of a load, at a concrete input.
use cstore_fdw.Prelude.{ℕ, ◌≡◌, refl, none, some, List, [], ◌∷◌, arith}
use cstore_fdw.Result.{ok}
use cstore_fdw.Compression.{compression_none}
use cstore_fdw.Metadata.{serialize_post_script, serialize_table_footer}
use cstore_fdw.FooterFile.Read.{read_footer}
use cstore_fdw.Writer.{TableWriteState}
use cstore_fdw.Writer.Rows.{flush_rest, end_write}
use cstore_fdw.Writer.Commit.{end_write-read_footer}
use cstore_fdw.Tests.Parameters.{macros, pglz, protobuf, protobuf_laws}
use cstore_fdw.Tests.Formats.{footer}
use cstore_fdw.Tests.Files.{disk}

-- A load whose last row has filled a stripe.
abbrev ended : TableWriteState (List ℕ)
ended = record {
  position = 73;
  table_footer = footer;
  compression_type = compression_none;
  current_file_offset = 73;
  stripe_max_row_count = 1000;
  columns = [];
  stripe = none;
}

commit_example :
    let (r, d) = end_write macros pglz protobuf ended disk in
    (r ≡ ok tt)
    × (read_footer protobuf d.footer_file ≡ ok footer)
    × (d.data_file ≡ some (4 ∷ 5 ∷ []))
unfolding serialize_post_script serialize_table_footer flush_rest
commit_example =
    end_write-read_footer macros pglz protobuf protobuf_laws ended ended disk disk refl
      (record { stripes = omega arith; rows_min = omega arith; rows_max = omega arith })
      (record { postscript_small = omega arith; footer_small = omega arith }) (omega arith)
