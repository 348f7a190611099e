-- ===== src/Trigger.antt =====
-- The event trigger on the end of a DDL command (cstore_fdw.c): `cstore_ddl_event_end_trigger`. The
-- paths of the two directories, the options and the columns of the table are those that PostgreSQL
-- and `CStoreGetOptions` give.
pub mod Table
use cstore_fdw.Prelude.{ℕ, Option, List, if◌then◌else◌}
use cstore_fdw.Result.{Result, ok, err}
use cstore_fdw.CString.{Text, strncmp_eq, namedatalen}
use cstore_fdw.Postgres.{Attribute, TupleMacros}
use cstore_fdw.Compression.{Pglz}
use cstore_fdw.SkipNode.{Comparison}
use cstore_fdw.Disk.{Disk}
use cstore_fdw.Options.{FdwOptions}
use cstore_fdw.Protobuf.{Protobuf}
use cstore_fdw.TableFiles.{initialize_table_file}
use cstore_fdw.Directories.{FileSystem, create_cstore_database_directory}
use cstore_fdw.Utility.Tables.{cstore_fdw_name}

-- The commands that the trigger tells apart, each with the name of the server's wrapper.
pub data DdlCommand : Type 0 where
  create_foreign_server create_foreign_table : Text → DdlCommand
  other_command : DdlCommand

module _ (fs : FileSystem) (macros : TupleMacros) (pglz : Pglz) (protobuf : Protobuf) where
  open fs use {State}
  open macros use {Datum}

  -- the files of a new table, where its directory was made
  abbrev pub initialize_in :
      FdwOptions
      → List Attribute
      → (ℕ → Option (Comparison Datum))
      → Result (Unit {0}) × State
      → Disk
      → Result (Unit {0}) × (State × Disk)
  initialize_in options attributes get_function_info (err e, s) d = (err e, (s, d))
  initialize_in options attributes get_function_info (ok u, s) d =
      let (r, d') =
        initialize_table_file macros pglz protobuf options attributes get_function_info d in
      (r, (s, d'))

  unfoldable pub ddl_event_end_trigger :
      Text
      → Text
      → FdwOptions
      → List Attribute
      → (ℕ → Option (Comparison Datum))
      → DdlCommand
      → State
      → Disk
      → Result (Unit {0}) × (State × Disk)
  ddl_event_end_trigger cstore database options attributes info (create_foreign_server wrapper) s
        d =
      let (r, s') = create_cstore_database_directory fs cstore database s in
      if strncmp_eq wrapper cstore_fdw_name namedatalen then (r, (s', d)) else (ok tt, (s, d))
  ddl_event_end_trigger cstore database options attributes info (create_foreign_table wrapper) s d =
      if strncmp_eq wrapper cstore_fdw_name namedatalen
      then initialize_in options attributes info
          (create_cstore_database_directory fs cstore database s) d
      else (ok tt, (s, d))
  ddl_event_end_trigger cstore database options attributes info other_command s d = (ok tt, (s, d))
