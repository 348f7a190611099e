-- ===== src/Tests/Trigger.antt =====
-- The theorem on the files of a new foreign table, at a concrete input.
use cstore_fdw.Prelude.{◌≡◌, refl, none, some, [], ◌∷◌, arith}
use cstore_fdw.Result.{ok}
use cstore_fdw.CString.{codes, strncmp_eq}
use cstore_fdw.Metadata.{serialize_post_script, serialize_table_footer}
use cstore_fdw.Disk.{Disk}
use cstore_fdw.FooterFile.Read.{read_footer}
use cstore_fdw.TableFiles.Truncate.{empty_footer}
use cstore_fdw.Trigger.{create_foreign_table, ddl_event_end_trigger}
use cstore_fdw.Trigger.Table.{ddl_event_end_trigger-read_footer}
use cstore_fdw.Tests.Parameters.{macros, pglz, protobuf, protobuf_laws}
use cstore_fdw.Tests.Formats.{text_column, byte_column}
use cstore_fdw.Tests.Directories.{file_system, file_system_laws}
use cstore_fdw.Tests.Truncate.{options}

abbrev new : Disk
new = record { data_file = none; footer_file = none; temp_footer_file = none; credit = 8 }

trigger_example :
    let (r, (s', d')) =
      ddl_event_end_trigger file_system macros pglz protobuf
        (1 ∷ [])
        (1 ∷ 2 ∷ [])
        options
        (text_column ∷ byte_column ∷ [])
        (λ t. none)
        (create_foreign_table (codes "cstore_fdw"))
        2
        new in
    (r ≡ ok tt)
    × (s' ≡ 2)
    × (read_footer protobuf d'.footer_file ≡ ok (empty_footer 10000))
    × (d'.data_file ≡ some [])
unfolding serialize_post_script serialize_table_footer strncmp_eq
trigger_example =
    ddl_event_end_trigger-read_footer file_system file_system_laws macros pglz protobuf
      protobuf_laws (1 ∷ []) (1 ∷ 2 ∷ []) (codes "cstore_fdw") options
      (text_column ∷ byte_column ∷ []) (λ t. none) 2 new refl refl refl refl
      (record { stripes = tt; rows_min = omega arith; rows_max = omega arith })
      (record { postscript_small = omega arith; footer_small = omega arith }) (omega arith)
