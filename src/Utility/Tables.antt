-- ===== src/Utility/Tables.antt =====
-- What the hooks ask about tables (cstore_fdw.c): `CStoreTable`, `CStoreServer`, `DistributedTable`,
-- `FindCStoreTables` and `OpenRelationsForTruncate`.
use cstore_fdw.Prelude.{
  ℕ, ◌≡◌, Bool, true, false, not, ◌&&◌, ◌||◌, List, [], ◌∷◌, ◌++◌, ◌==◌, if◌then◌else◌,
}
use cstore_fdw.Result.{Result, ok, permission_denied, fail_if, ◌>>◌}
use cstore_fdw.CString.{Text, codes, strncmp_eq, namedatalen}

-- PostgreSQL's catalogs. An identifier that is not found is 0, `InvalidOid`. `fdw_name` is the name
-- of the wrapper of the server of a foreign table, `has_partition_row` says that a scan of a
-- relation finds a row for a table, and `get_attnum` is 0 also for a number that is negative.
pub record Catalog : Type 1 where
  pub RangeVar : Type 0
  pub equal : RangeVar → RangeVar → Bool
  pub strcmp_eq : Text → Text → Bool
  pub range_var_get_relid : RangeVar → ℕ
  pub is_foreign_table : ℕ → Bool
  pub fdw_name : ℕ → Text
  pub get_extension_oid : Text → ℕ
  pub get_relname_relid : Text → ℕ
  pub has_partition_row : ℕ → ℕ → Bool
  pub truncate_allowed : ℕ → Bool
  pub superuser : Bool
  pub filename_option : ℕ → Text
  pub default_file_path : ℕ → Text
  pub get_database_oid : Text → ℕ
  pub my_database_id : ℕ
  pub get_attnum : ℕ → Text → ℕ
  pub get_atttype : ℕ → ℕ → ℕ
  pub can_coerce_implicitly : ℕ → ℕ → Bool

-- `equal` is an equivalence that tells relations apart.
pub record CatalogLaws (catalog : Catalog) : Type 0 where
  pub equal_refl : (r : catalog.RangeVar) → catalog.equal r r ≡ true
  pub equal_relid :
      (r t : catalog.RangeVar)
      → catalog.equal r t ≡ true
      → catalog.range_var_get_relid r ≡ catalog.range_var_get_relid t

abbrev pub cstore_fdw_name : Text
cstore_fdw_name = codes "cstore_fdw"

abbrev pub citus_extension_name : Text
citus_extension_name = codes "citus"

abbrev pub citus_partition_table_name : Text
citus_partition_table_name = codes "pg_dist_partition"

-- `list_member_oid`
abbrev pub list_member_oid : List ℕ → ℕ → Bool
list_member_oid [] id = false
list_member_oid (i ∷ ids) id = (i == id) || list_member_oid ids id

module _ (catalog : Catalog) where
  open catalog use {
    RangeVar, range_var_get_relid, is_foreign_table, fdw_name, get_extension_oid, get_relname_relid,
    has_partition_row, truncate_allowed,
  }

  unfoldable pub cstore_server : ℕ → Bool
  cstore_server id = strncmp_eq (fdw_name id) cstore_fdw_name namedatalen

  unfoldable pub cstore_table : ℕ → Bool
  cstore_table id =
      if id == 0 then false else if is_foreign_table id then cstore_server id else false

  unfoldable pub distributed_table : ℕ → Bool
  distributed_table id =
      if get_extension_oid citus_extension_name == 0
      then false
      else if get_relname_relid citus_partition_table_name == 0
      then false
      else has_partition_row (get_relname_relid citus_partition_table_name) id

  abbrev pub is_truncated_here : RangeVar → Bool
  is_truncated_here r =
      cstore_table (range_var_get_relid r) && not (distributed_table (range_var_get_relid r))

  unfoldable pub find_cstore_tables : List RangeVar → List RangeVar
  find_cstore_tables [] = []
  find_cstore_tables (r ∷ rs) =
      let rest = find_cstore_tables rs in if is_truncated_here r then r ∷ rest else rest

  -- The loop over the tables, behind those whose identifiers are listed: the identifiers of the
  -- relations that it lists.
  unfoldable pub open_relations_for_truncate : List ℕ → List RangeVar → Result (List ℕ)
  open_relations_for_truncate ids [] = ok ids
  open_relations_for_truncate ids (r ∷ rs) = do
    let id = range_var_get_relid r
    fail_if (not (truncate_allowed id)) permission_denied
    open_relations_for_truncate (if list_member_oid ids id then ids else ids ++ id ∷ []) rs
