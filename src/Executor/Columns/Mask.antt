-- ===== src/Executor/Columns/Mask.antt =====
-- What `ColumnList` (cstore_fdw.c) gives the reader: `ProjectedColumnMask` (cstore_reader.c) marks the
-- columns that are needed.
use cstore_fdw.Prelude.{
  ℕ, ◌+◌, ◌^◌, ◌<◌, ◌≡◌, refl, ap, subst, ◌∙◌, inl, inr, Bool, true, false, not, ◌&&◌, ◌||◌, Option,
  none, some, List, [], ◌∷◌, ◌++◌, arith, ◌==◌, length, replicate, Bool-cases, set-append,
  length-append, append_assoc,
}
use cstore_fdw.Result.{ok}
use cstore_fdw.Postgres.{Attribute}
use cstore_fdw.Writer.Invariant.Column.{store_at-ok}
use cstore_fdw.Reader.{Var, column_index}
use cstore_fdw.Reader.Columns.{mark_columns, projected_column_mask}
use cstore_fdw.Executor.Columns.{whole_row, find_column, add_column, columns_from, column_list}

-- The column is among the needed ones, by itself or in a whole row.
abbrev pub is_needed : ℕ → List Var → Bool
is_needed i [] = false
is_needed i (v ∷ needed) = (v.varattno == i || v.varattno == whole_row) || is_needed i needed

-- For each column from a number on, whether it is needed and not dropped.
abbrev pub needed_from : ℕ → List Attribute → List Var → List Bool
needed_from i [] needed = []
needed_from i (a ∷ attributes) needed =
    (not a.attisdropped && is_needed i needed) ∷ needed_from (i + 1) attributes needed

-- A column is found if it is needed, with its number.
abbrev Found : ℕ → List Var → Option Var → Type 0
Found i needed none = is_needed i needed ≡ false
Found i needed (some v) = (is_needed i needed ≡ true) × (v.varattno ≡ i)

Found-cons :
    (i : ℕ) (v : Var) (needed : List Var) (o : Option Var)
    → (v.varattno == i) ≡ false
    → (v.varattno == whole_row) ≡ false
    → Found i needed o
    → Found i (v ∷ needed) o
Found-cons i v needed none e w f = rw (e, w) f
Found-cons i v needed (some x) e w f = (rw (e, w) (f.0), f.1)

find_column-Found :
    (i : ℕ) (a : Attribute) (needed : List Var) → Found i needed (find_column i a needed)
unfolding find_column
find_column-Found i a [] = refl
find_column-Found i a (v ∷ needed) = elim (Bool-cases (v.varattno == i)) [
  | inl e ↦ rw e (rw e refl, ground arith)
  | inr e ↦ elim (Bool-cases (v.varattno == whole_row)) [
    | inl w ↦ rw (e, w) (rw (e, w) refl, refl)
    | inr w ↦ rw (e, w) (Found-cons i v needed _ e w (find_column-Found i a needed))
  ]
]

-- What the rounds behind a column give, whatever its bit.
abbrev Marks : ℕ → List Attribute → List Var → List Bool → Type 0
Marks i attributes needed done =
    (b : Bool)
    → mark_columns (columns_from i attributes needed)
        (done ++ b ∷ replicate (length attributes) false)
      ≡ ok (done ++ b ∷ needed_from i attributes needed)

mark_columns-Found :
    (attributes : List Attribute) (needed : List Var) (i : ℕ) (done : List Bool) (o : Option Var)
    → i ≡ length done + 1
    → i < 2 ^ 32
    → Found i needed o
    → Marks (i + 1) attributes needed done
    → mark_columns
        (add_column o (columns_from (i + 1) attributes needed))
        (done ++ false ∷ replicate (length attributes) false)
      ≡ ok (done ++ is_needed i needed ∷ needed_from (i + 1) attributes needed)
unfolding mark_columns
mark_columns-Found attributes needed i done none e small f marks = rw f (marks false)
mark_columns-Found attributes needed i done (some v) e small (f, number) marks =
    let place : column_index v ≡ length done = omega arith in
    let fits : column_index v < length (done ++ false ∷ replicate (length attributes) false) =
      omega (arith, length-append done (false ∷ replicate (length attributes) false)) in
    rw
      (
        store_at-ok (done ++ false ∷ replicate (length attributes) false) (column_index v) true
            fits,
        set-append done false (replicate (length attributes) false) (column_index v) true place,
        f,
      )
      (marks true)

-- Marking the columns of a number on, over a mask whose first part is done.
mark_columns-from :
    (attributes : List Attribute) (needed : List Var) (i : ℕ) (done : List Bool)
    → i ≡ length done + 1
    → i + length attributes < 2 ^ 32
    → mark_columns (columns_from i attributes needed) (done ++ replicate (length attributes) false)
      ≡ ok (done ++ needed_from i attributes needed)
unfolding mark_columns columns_from find_column
mark_columns-from [] needed i done e small = refl
mark_columns-from (a ∷ attributes) needed i done e small =
    let marks : Marks (i + 1) attributes needed done = λ b.
      subst
        (λ l.
          mark_columns (columns_from (i + 1) attributes needed) l
          ≡ ok (done ++ b ∷ needed_from (i + 1) attributes needed))
        (append_assoc done (b ∷ []) (replicate (length attributes) false))
        (mark_columns-from attributes needed (i + 1) (done ++ (b ∷ []))
            (omega (arith, length-append done (b ∷ []))) (omega arith)
          ∙ ap ok (append_assoc done (b ∷ []) (needed_from (i + 1) attributes needed))) in
    elim (Bool-cases a.attisdropped) [
      | inl dropped ↦ rw dropped (marks false)
      | inr live ↦ rw live (
          mark_columns-Found attributes needed i done (find_column i a needed) e (omega arith)
            (find_column-Found i a needed) marks)
    ]

-- The columns of a query are all in the range of the table, and the mask that they give marks
-- exactly the columns that are needed and not dropped, a whole row needing all, for a table of less
-- than 2 ^ 32 - 1 columns.
pub projected_column_mask-column_list :
    (attributes : List Attribute) (needed : List Var)
    → length attributes + 1 < 2 ^ 32
    → projected_column_mask (length attributes) (column_list attributes needed)
      ≡ ok (needed_from 1 attributes needed)
unfolding projected_column_mask column_list
projected_column_mask-column_list attributes needed small =
    mark_columns-from attributes needed 1 [] (omega arith) (omega arith)
