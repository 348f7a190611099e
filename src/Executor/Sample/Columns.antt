-- ===== src/Executor/Sample/Columns.antt =====
-- The columns that ANALYZE scans (`CStoreAcquireSampleRows`) are those of a query for whole rows
-- (`ColumnList`, cstore_fdw.c).
use cstore_fdw.Prelude.{
  ℕ, ◌+◌, ◌≡◌, refl, inl, inr, true, false, some, List, [], ◌∷◌, arith, ◌==◌, ==_iff, Bool-cases,
}
use cstore_fdw.Postgres.{Attribute}
use cstore_fdw.Reader.{Var}
use cstore_fdw.Executor.Columns.{whole_row, find_column, columns_from, column_list}
use cstore_fdw.Executor.Sample.{all_columns}

find_column_whole :
    (v : Var) (needed : List Var) (i : ℕ) (a : Attribute)
    → v.varattno ≡ whole_row
    → find_column (i + 1) a (v ∷ needed)
      ≡ some (record {
        varattno = i + 1;
        vartype = a.atttypid;
        vartypmod = a.atttypmod;
        varcollid = a.attcollation;
      })
unfolding find_column
find_column_whole v needed i a whole =
    let other : (v.varattno == i + 1) ≡ false = ground (arith, whole) in
    let same : (v.varattno == whole_row) ≡ true = (==_iff v.varattno whole_row).1 whole in
    rw (other, same) refl

columns_from-all_columns :
    (v : Var) (needed : List Var) (i : ℕ) (attributes : List Attribute)
    → v.varattno ≡ whole_row
    → columns_from (i + 1) attributes (v ∷ needed) ≡ all_columns i attributes
unfolding columns_from all_columns find_column
columns_from-all_columns v needed i [] whole = refl
columns_from-all_columns v needed i (a ∷ attributes) whole = elim (Bool-cases a.attisdropped) [
  | inl e ↦ rw e (columns_from-all_columns v needed (i + 1) attributes whole)
  | inr e ↦
      rw
        (
          e,
          find_column_whole v needed i a whole,
          columns_from-all_columns v needed (i + 1) attributes whole,
        )
        refl
]

-- The columns of a query whose first need is a whole row are all columns that are not dropped, as
-- in a sample.
pub column_list-all_columns :
    (attributes : List Attribute) (v : Var) (needed : List Var)
    → v.varattno ≡ whole_row
    → column_list attributes (v ∷ needed) ≡ all_columns 0 attributes
unfolding column_list
column_list-all_columns attributes v needed whole =
    columns_from-all_columns v needed 0 attributes whole
