-- ===== src/Tests/Utility.antt =====
-- The theorems on a TRUNCATE and on a COPY, with catalogs of concrete tables.
use cstore_fdw.Prelude.{All, ◌≢◌, some, ℕ, ◌≡◌, refl, true, false, [], ◌∷◌, ◌==◌, ==_iff, leb}
use cstore_fdw.Result.{Result, ok}
use cstore_fdw.CString.{codes, strncmp_eq}
use cstore_fdw.Utility.Tables.{
  Catalog, CatalogLaws, cstore_fdw_name, cstore_table, distributed_table, cstore_server,
  find_cstore_tables, open_relations_for_truncate,
}
use cstore_fdw.Utility.{
  Action, CopyStatement, copy_statement, copy_into_table, truncate_statement,
  call_previous_truncate, truncate_tables, process_utility,
}
use cstore_fdw.Utility.Privileges.{process_utility_no_load}
use cstore_fdw.Utility.Routing.{process_utility-truncate_statement}

-- Relations are their identifiers; foreign are those from 10 on, all of this extension, and those
-- from 20 on are distributed.
abbrev catalog : Catalog
catalog = record {
  RangeVar = ℕ;
  equal = λ r t. r == t;
  strcmp_eq = λ s t. strncmp_eq s t 64;
  range_var_get_relid = λ r. r;
  is_foreign_table = λ id. leb 10 id;
  fdw_name = λ id. cstore_fdw_name;
  get_extension_oid = λ name. 5;
  get_relname_relid = λ name. 6;
  has_partition_row = λ table id. leb 20 id;
  truncate_allowed = λ id. true;
  superuser = false;
  filename_option = λ id. codes "/data/1";
  default_file_path = λ id. codes "/data/2";
  get_database_oid = λ name. 0;
  my_database_id = 1;
  get_attnum = λ id column. 0;
  get_atttype = λ id column. 0;
  can_coerce_implicitly = λ s t. true;
}

catalog_laws : CatalogLaws catalog
catalog_laws = record {
  equal_refl = λ r. (==_iff r r).1 refl;
  equal_relid = λ r t e. (==_iff r t).0 e;
}

-- All actions succeed.
abbrev run : Action ℕ → Result (Unit {0})
run action = ok tt

utility_example :
    process_utility catalog run (truncate_statement (3 ∷ 12 ∷ 25 ∷ 12 ∷ 11 ∷ []))
    ≡ (ok tt, call_previous_truncate (3 ∷ 25 ∷ []) ∷ truncate_tables (12 ∷ 11 ∷ []) ∷ [])
unfolding cstore_table distributed_table cstore_server strncmp_eq
utility_example =
    process_utility-truncate_statement catalog catalog_laws run (3 ∷ 12 ∷ 25 ∷ 12 ∷ 11 ∷ [])
      (λ action. refl)

-- The previous hook is not called where no relation is left for it.
truncate_own_only :
    process_utility catalog run (truncate_statement (12 ∷ 11 ∷ []))
    ≡ (ok tt, truncate_tables (12 ∷ 11 ∷ []) ∷ [])
unfolding cstore_table distributed_table cstore_server strncmp_eq process_utility find_cstore_tables
    open_relations_for_truncate
truncate_own_only = refl

abbrev file_copy : CopyStatement ℕ
file_copy = record {
  relation = some 12;
  option_names = codes "format" ∷ [];
  is_from = true;
  has_filename = true;
  has_attlist = false;
}

privilege_example :
    All
      (λ action. action ≢ copy_into_table)
      (process_utility catalog run (copy_statement file_copy)).1
privilege_example = process_utility_no_load catalog run file_copy refl refl
