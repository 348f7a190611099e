-- ===== src/Utility.antt =====
-- The hook on utility commands (cstore_fdw.c): `CStoreProcessUtility` and what it asks about tables.
-- The catalogs of PostgreSQL are the parameter `Catalog`; what a command does is the log of its
-- actions.
pub mod Tables
pub mod Routing
pub mod Privileges
use cstore_fdw.Prelude.{
  ℕ, Bool, true, false, not, ◌&&◌, ◌||◌, Option, none, some, List, [], ◌∷◌, ◌++◌, ◌==◌,
  if◌then◌else◌,
}
use cstore_fdw.Result.{
  Result, ok, err, cannot_cast_automatically, must_be_superuser, column_list_not_supported, fail_if,
  ◌>>=◌, ◌>>◌,
}
use cstore_fdw.CString.{Text, codes, strncmp_eq, namedatalen}
use cstore_fdw.Utility.Tables.{
  Catalog, cstore_fdw_name, cstore_table, distributed_table, find_cstore_tables,
  open_relations_for_truncate,
}

-- `AlterTableCmd`: only a change of a column's type is looked at, by the column and the new type.
pub data AlterCommand : Type 0 where
  alter_column_type : Text → ℕ → AlterCommand
  other_alteration : AlterCommand

-- `CopyStmt`, with the names of its options, and whether it has a file or a list of columns
pub record CopyStatement (RangeVar : Type 0) : Type 0 where
  pub relation : Option RangeVar
  pub option_names : List Text
  pub is_from : Bool
  pub has_filename : Bool
  pub has_attlist : Bool

-- The statements that the hook tells apart.
pub data Statement (RangeVar : Type 0) : Type 0 where
  copy_statement : CopyStatement RangeVar → Statement RangeVar
  drop_extension : List Text → Statement RangeVar
  drop_foreign_table : List RangeVar → Statement RangeVar
  drop_other : Statement RangeVar
  truncate_statement : List RangeVar → Statement RangeVar
  alter_table : Bool → RangeVar → List AlterCommand → Statement RangeVar
  drop_database : Text → Statement RangeVar
  other_statement : Statement RangeVar

-- What is done for a statement; `call_previous` is the previous hook or the standard command, for a
-- TRUNCATE with the relations that are left.
pub data Action (RangeVar : Type 0) : Type 0 where
  call_previous : Action RangeVar
  call_previous_truncate : List RangeVar → Action RangeVar
  copy_into_table copy_out_table : Action RangeVar
  delete_files : Text → Action RangeVar
  truncate_tables : List ℕ → Action RangeVar
  remove_database_directory : ℕ → Action RangeVar

-- How a statement ends, and the actions that were done for it, in order; the last may have failed.
abbrev pub Log : Type 0 → Type 0
Log RangeVar = Result (Unit {0}) × List (Action RangeVar)

abbrev pub done : {RangeVar : Type 0} → Log RangeVar
done = (ok tt, [])

abbrev pub followed_by : {RangeVar : Type 0} → Log RangeVar → Log RangeVar → Log RangeVar
followed_by (err e, actions) next = (err e, actions)
followed_by (ok u, actions) (r, more) = (r, actions ++ more)

abbrev pub checked : {RangeVar : Type 0} → Result (Unit {0}) → Log RangeVar → Log RangeVar
checked (err e) next = (err e, [])
checked (ok u) next = next

abbrev pub master_host : Text
master_host = codes "master_host"

-- `DistributedWorkerCopy`
unfoldable pub distributed_worker_copy : List Text → Bool
distributed_worker_copy [] = false
distributed_worker_copy (name ∷ names) =
    let rest = distributed_worker_copy names in
    if strncmp_eq name master_host namedatalen then true else rest

-- the loop over the objects of a DROP EXTENSION
unfoldable pub drops_cstore : List Text → Bool
drops_cstore [] = false
drops_cstore (name ∷ names) =
    let rest = drops_cstore names in
    if strncmp_eq cstore_fdw_name name namedatalen then true else rest

module _ (catalog : Catalog) where
  open catalog use {
    RangeVar, range_var_get_relid, equal, filename_option, default_file_path, get_database_oid,
    get_attnum, get_atttype, can_coerce_implicitly,
  }

  unfoldable pub copy_cstore_table_statement : CopyStatement RangeVar → Bool
  copy_cstore_table_statement copy = go copy.relation
    where
      go : Option RangeVar → Bool
      go none = false
      go (some r) =
          let id = range_var_get_relid r in
          cstore_table catalog id
          && not (distributed_table catalog id || distributed_worker_copy copy.option_names)

  unfoldable pub check_superuser_privileges_for_copy : CopyStatement RangeVar → Result (Unit {0})
  check_superuser_privileges_for_copy copy =
      fail_if (copy.has_filename && not catalog.superuser) must_be_superuser

  -- The loop over the tables of a DROP: the files that are not in the default place.
  unfoldable pub dropped_cstore_filename_list : List RangeVar → List Text
  dropped_cstore_filename_list [] = []
  dropped_cstore_filename_list (r ∷ rs) =
      let id = range_var_get_relid r in
      let rest = dropped_cstore_filename_list rs in
      if cstore_table catalog id
      then if catalog.strcmp_eq (default_file_path id) (filename_option id)
        then rest
        else filename_option id ∷ rest
      else rest

  -- The loop over the commands of an ALTER TABLE.
  unfoldable pub check_alter_commands : ℕ → List AlterCommand → Result (Unit {0})
  check_alter_commands id [] = ok tt
  check_alter_commands id (other_alteration ∷ commands) = check_alter_commands id commands
  check_alter_commands id (alter_column_type column target ∷ commands) = do
    fail_if
        (not (get_attnum id column == 0)
          && not (can_coerce_implicitly (get_atttype id (get_attnum id column)) target))
        cannot_cast_automatically
    check_alter_commands id commands

  -- `is_table` says that the statement is about a table or a foreign table.
  unfoldable pub process_alter_table_command :
      Bool → RangeVar → List AlterCommand → Result (Unit {0})
  process_alter_table_command is_table r commands =
      if is_table && cstore_table catalog (range_var_get_relid r)
      then check_alter_commands (range_var_get_relid r) commands
      else ok tt

  abbrev pub member : RangeVar → List RangeVar → Bool
  member r [] = false
  member r (t ∷ ts) = equal r t || member r ts

  -- `list_difference`
  abbrev pub list_difference : List RangeVar → List RangeVar → List RangeVar
  list_difference [] others = []
  list_difference (r ∷ rs) others =
      let rest = list_difference rs others in if member r others then rest else r ∷ rest

  -- `run` says how an action ends.
  module _ (run : Action RangeVar → Result (Unit {0})) where
    abbrev pub perform : Action RangeVar → Log RangeVar
    perform action = (run action, action ∷ [])

    -- `CopyIntoCStoreTable` up to the load
    unfoldable pub copy_into_cstore_table : CopyStatement RangeVar → Log RangeVar
    copy_into_cstore_table copy =
        checked (check_superuser_privileges_for_copy copy) (perform copy_into_table)

    -- `CopyOutCStoreTable` up to the query
    unfoldable pub copy_out_cstore_table : CopyStatement RangeVar → Log RangeVar
    copy_out_cstore_table copy =
        checked (fail_if copy.has_attlist column_list_not_supported) (perform copy_out_table)

    unfoldable pub process_copy_command : CopyStatement RangeVar → Log RangeVar
    process_copy_command copy =
        if copy.is_from then copy_into_cstore_table copy else copy_out_cstore_table copy

    abbrev pub delete_all : List Text → Log RangeVar
    delete_all [] = done
    delete_all (f ∷ fs) = followed_by (perform (delete_files f)) (delete_all fs)

    -- The previous hook truncates the other tables, if there are any.
    abbrev pub truncate_others : List RangeVar → Log RangeVar
    truncate_others [] = done
    truncate_others (r ∷ rs) = perform (call_previous_truncate (r ∷ rs))

    abbrev pub truncate_opened : List RangeVar → Result (List ℕ) → Log RangeVar
    truncate_opened others (err e) = (err e, [])
    truncate_opened others (ok ids) =
        followed_by (truncate_others others) (perform (truncate_tables ids))

    unfoldable pub process_utility : Statement RangeVar → Log RangeVar
    process_utility (copy_statement copy) =
        if copy_cstore_table_statement copy
        then process_copy_command copy
        else perform call_previous
    process_utility (drop_extension names) = followed_by (perform call_previous) (
        if drops_cstore names
        then perform (remove_database_directory catalog.my_database_id)
        else done)
    process_utility (drop_foreign_table rs) =
        followed_by (perform call_previous) (delete_all (dropped_cstore_filename_list rs))
    process_utility drop_other = perform call_previous
    process_utility (truncate_statement rs) =
        let tables = find_cstore_tables catalog rs in
        truncate_opened (list_difference rs tables) (open_relations_for_truncate catalog [] tables)
    process_utility (alter_table is_table r commands) =
        checked (process_alter_table_command is_table r commands) (perform call_previous)
    process_utility (drop_database name) = followed_by (perform call_previous) (
        if get_database_oid name == 0
        then done
        else perform (remove_database_directory (get_database_oid name)))
    process_utility other_statement = perform call_previous
