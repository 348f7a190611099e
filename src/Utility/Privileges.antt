-- ===== src/Utility/Privileges.antt =====
-- Who may load a file (`CheckSuperuserPrivilegesForCopy`, cstore_fdw.c).
use cstore_fdw.Prelude.{◌≡◌, ◌≢◌, inl, inr, true, false, Bool-cases, All}
use cstore_fdw.Result.{Result}
use cstore_fdw.Utility.Tables.{Catalog}
use cstore_fdw.Utility.{
  Action, CopyStatement, copy_into_table, copy_statement, copy_cstore_table_statement,
  check_superuser_privileges_for_copy, copy_into_cstore_table, copy_out_cstore_table,
  process_copy_command, process_utility,
}

module _ (catalog : Catalog) where
  open catalog use {RangeVar}

  -- A COPY with a file by a role that is not a superuser never begins the load of a table of the
  -- extension, however the actions end.
  pub process_utility_no_load :
      (run : Action RangeVar → Result (Unit {0})) (copy : CopyStatement RangeVar)
      → catalog.superuser ≡ false
      → copy.has_filename ≡ true
      → All
          (λ action. action ≢ copy_into_table)
          (process_utility catalog run (copy_statement copy)).1
  unfolding process_utility process_copy_command copy_into_cstore_table copy_out_cstore_table
      check_superuser_privileges_for_copy
  process_utility_no_load run copy role file =
      elim (Bool-cases (copy_cstore_table_statement catalog copy)) [
        | inl own ↦ elim (Bool-cases copy.is_from) [
          | inl from ↦ rw (own, from, file, role) tt
          | inr to ↦ elim (Bool-cases copy.has_attlist) [
            | inl columns ↦ rw (own, to, columns) tt
            | inr whole ↦ rw (own, to, whole) (λ e. cc, tt)
          ]
        ]
        | inr other ↦ rw other (λ e. cc, tt)
      ]
