-- ===== src/Trigger/Table.antt =====
-- The files of a new foreign table (`cstore_ddl_event_end_trigger`, cstore_fdw.c).
use cstore_fdw.Prelude.{ℕ, ◌≤◌, ◌≡◌, refl, true, none, some, Option, List, []}
use cstore_fdw.Result.{ok}
use cstore_fdw.CString.{Text, strncmp_eq, namedatalen}
use cstore_fdw.Postgres.{Attribute, TupleMacros}
use cstore_fdw.Compression.{Pglz}
use cstore_fdw.SkipNode.{Comparison}
use cstore_fdw.Disk.{Disk}
use cstore_fdw.Options.{FdwOptions}
use cstore_fdw.Protobuf.{Protobuf, ProtobufLaws}
use cstore_fdw.Metadata.Footers.{IsFooter}
use cstore_fdw.FooterFile.Read.{read_footer}
use cstore_fdw.FooterFile.RoundTrip.{IsSmall}
use cstore_fdw.TableFiles.Truncate.{empty_footer, initialize_table_file-read_footer}
use cstore_fdw.Directories.{FileSystem, FileSystemLaws, directory}
use cstore_fdw.Directories.Create.{create_again}
use cstore_fdw.Utility.Tables.{cstore_fdw_name}
use cstore_fdw.Trigger.{create_foreign_table, ddl_event_end_trigger}

-- After CREATE FOREIGN TABLE on a server of the extension, where both directories are there and the
-- table has no footer file, on a disk where eight more calls succeed: the directories are untouched,
-- the data file is empty, and the footer file holds a footer without stripes and with the block row
-- count of the options, which is read back.
pub ddl_event_end_trigger-read_footer :
    (fs : FileSystem) (fs_laws : FileSystemLaws fs) (macros : TupleMacros) (pglz : Pglz)
    (protobuf : Protobuf) (laws : ProtobufLaws protobuf) (cstore database wrapper : Text)
    (options : FdwOptions) (attributes : List Attribute)
    (get_function_info : ℕ → Option (Comparison macros.Datum)) (s : fs.State) (d : Disk)
    → strncmp_eq wrapper cstore_fdw_name namedatalen ≡ true
    → fs.stat cstore s ≡ directory
    → fs.stat database s ≡ directory
    → d.footer_file ≡ none
    → IsFooter (empty_footer options.block_row_count)
    → IsSmall protobuf laws (empty_footer options.block_row_count)
    → 8 ≤ d.credit
    → let (r, (s', d')) =
        ddl_event_end_trigger fs macros pglz protobuf cstore database options attributes
          get_function_info
          (create_foreign_table wrapper)
          s
          d in
      (r ≡ ok tt)
      × (s' ≡ s)
      × (read_footer protobuf d'.footer_file ≡ ok (empty_footer options.block_row_count))
      × (d'.data_file ≡ some [])
unfolding ddl_event_end_trigger
ddl_event_end_trigger-read_footer fs fs_laws macros pglz protobuf laws cstore database wrapper
      options attributes get_function_info s d own e f absent fits small enough =
    let (r, footer, content) =
      initialize_table_file-read_footer macros pglz protobuf laws options attributes
        get_function_info d absent fits small enough in
    rw (own, create_again fs fs_laws cstore database s e f) (r, refl, footer, content)
