-- ===== src/Executor/Columns.antt =====
-- `ColumnList` (cstore_fdw.c). The variables that PostgreSQL's `pull_var_clause` finds in the targets
-- and the restrictions are a parameter, united by `list_union`; a system column's negative number
-- stands as the number that its 16 bits are without a sign, and 0 is the whole row.
pub mod Mask
use cstore_fdw.Prelude.{
  ℕ, ◌+◌, Bool, true, false, Option, none, some, List, [], ◌∷◌, ◌==◌, if◌then◌else◌,
}
use cstore_fdw.Postgres.{Attribute}
use cstore_fdw.Reader.{Var}

abbrev pub whole_row : ℕ
whole_row = 0

-- `makeVar`
abbrev make_var : ℕ → Attribute → Var
make_var column_index a = record {
  varattno = column_index;
  vartype = a.atttypid;
  vartypmod = a.atttypmod;
  varcollid = a.attcollation;
}

-- "look for this column in the needed column list"
unfoldable pub find_column : ℕ → Attribute → List Var → Option Var
find_column column_index a [] = none
find_column column_index a (v ∷ needed) =
    let rest = find_column column_index a needed in
    if v.varattno == column_index
    then some v
    else if v.varattno == whole_row
    then some (make_var column_index a)
    else rest

-- `lappend` of a column that was found, in front of those of the later rounds
abbrev pub add_column : Option Var → List Var → List Var
add_column none rest = rest
add_column (some v) rest = v ∷ rest

-- The loop over the columns from a number on.
unfoldable pub columns_from : ℕ → List Attribute → List Var → List Var
columns_from column_index [] needed = []
columns_from column_index (a ∷ attributes) needed =
    let rest = columns_from (column_index + 1) attributes needed in
    if a.attisdropped then rest else add_column (find_column column_index a needed) rest

-- The relation has as many columns as its tuple descriptor.
unfoldable pub column_list : List Attribute → List Var → List Var
column_list attributes needed = columns_from 1 attributes needed
