-- ===== src/Tests/Truncate.antt =====
-- The theorem on the files of a truncated table, at a concrete input.
use cstore_fdw.Prelude.{◌≡◌, none, some, [], ◌∷◌, arith}
use cstore_fdw.Result.{ok}
use cstore_fdw.CString.{codes}
use cstore_fdw.Compression.{compression_pg_lz}
use cstore_fdw.Metadata.{serialize_post_script, serialize_table_footer}
use cstore_fdw.Disk.{Disk}
use cstore_fdw.Options.{FdwOptions}
use cstore_fdw.FooterFile.Read.{read_footer}
use cstore_fdw.TableFiles.{truncate_table}
use cstore_fdw.TableFiles.Truncate.{empty_footer, truncate_table-read_footer}
use cstore_fdw.Tests.Parameters.{macros, pglz, protobuf, protobuf_laws}
use cstore_fdw.Tests.Formats.{text_column, byte_column}
use cstore_fdw.Tests.Files.{disk}

abbrev pub options : FdwOptions
options = record {
  filename = codes "/data/1";
  compression_type = compression_pg_lz;
  stripe_row_count = 2000;
  block_row_count = 10000;
}

abbrev full : Disk
full = record disk { credit = 10 }

truncate_example :
    let (r, d) =
      truncate_table macros pglz protobuf options
        (text_column ∷ byte_column ∷ [])
        (λ t. none)
        full in
    (r ≡ ok tt)
    × (read_footer protobuf d.footer_file ≡ ok (empty_footer 10000))
    × (d.data_file ≡ some [])
unfolding serialize_post_script serialize_table_footer
truncate_example =
    truncate_table-read_footer macros pglz protobuf protobuf_laws options
      (text_column ∷ byte_column ∷ []) (λ t. none) full
      (record { stripes = tt; rows_min = omega arith; rows_max = omega arith })
      (record { postscript_small = omega arith; footer_small = omega arith }) (omega arith)
