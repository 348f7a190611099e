-- ===== src/TableFiles.antt =====
-- The files of a table as a whole (cstore_fdw.c): `DeleteCStoreTableFiles`,
-- `InitializeCStoreTableFile` and what `TruncateCStoreTables` does to one table.
pub mod Truncate
use cstore_fdw.Prelude.{ℕ, Option, none, some, List}
use cstore_fdw.Result.{Result, ok, could_not_delete}
use cstore_fdw.Postgres.{Attribute, TupleMacros}
use cstore_fdw.Compression.{Pglz}
use cstore_fdw.SkipNode.{Comparison}
use cstore_fdw.Disk.{Disk, Io, call, ◌>>=◌, ◌>>◌}
use cstore_fdw.Options.{FdwOptions}
use cstore_fdw.Protobuf.{Protobuf}
use cstore_fdw.Writer.Rows.{begin_write, end_write}

-- A call whose failure is a WARNING.
abbrev pub attempt : Io (Unit {0}) → Io (Unit {0})
attempt m d = (ok tt, (m d).1)

-- `unlink` of the footer file, then of the data file
unfoldable pub delete_table_files : Io (Unit {0})
delete_table_files = do
  attempt (call could_not_delete (λ d. record d { footer_file = none }))
  attempt (call could_not_delete (λ d. record d { data_file = none }))

module _ (macros : TupleMacros) (pglz : Pglz) (protobuf : Protobuf) where
  open macros use {Datum}

  -- The options are those of the table.
  unfoldable pub initialize_table_file :
      FdwOptions → List Attribute → (ℕ → Option (Comparison Datum)) → Io (Unit {0})
  initialize_table_file options attributes get_function_info = do
    w ←
        begin_write macros pglz protobuf options.compression_type options.stripe_row_count
          options.block_row_count attributes get_function_info
    end_write macros pglz protobuf w

  -- one round of the loop over the tables
  unfoldable pub truncate_table :
      FdwOptions → List Attribute → (ℕ → Option (Comparison Datum)) → Io (Unit {0})
  truncate_table options attributes get_function_info = do
    delete_table_files
    initialize_table_file options attributes get_function_info
