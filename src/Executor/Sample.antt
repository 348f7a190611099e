-- ===== src/Executor/Sample.antt =====
-- The sampling of rows in `CStoreAcquireSampleRows` (cstore_fdw.c). The random choices of
-- PostgreSQL's analyze.c are the parameter `Random`; `double`s hold whole numbers below 2 ^ 53.
pub mod Reservoir
pub mod Columns
use cstore_fdw.Prelude.{
  ℕ, zero, suc, ◌+◌, ◌-◌, ◌^◌, ◌≤◌, ◌<◌, ◌≡◌, Bool, true, false, not, ◌&&◌, List, [], ◌∷◌, ◌++◌,
  ltb, if◌then◌else◌, length, set,
}
use cstore_fdw.Prelude.Int.{ℤ, pos, negsuc, is_positive, is_negative}
use cstore_fdw.Result.{Result, ok, fault, fail_if, ◌>>=◌, ◌>>◌}
use cstore_fdw.Postgres.{Attribute}
use cstore_fdw.Reader.{Var}
use cstore_fdw.Writer.Column.{store_at}

-- `Seed` is the state of all random choices; `anl_get_next_S` for a number of rows and a sample size, and `(int) (n * anl_random_fract())`.
pub record Random : Type 1 where
  pub Seed : Type 0
  pub init_selection_state : ℕ → Seed
  pub get_next_s : ℕ → ℕ → Seed → ℕ × Seed
  pub random_index : ℕ → Seed → ℕ × Seed

-- `anl_random_fract` is at least 0 and below 1.
pub record RandomLaws (random : Random) : Type 0 where
  pub random_index-lt : (n : ℕ) (s : random.Seed) → 0 < n → (random.random_index n s).0 < n

-- "create list of columns of the relation": the loop from a column index on
unfoldable pub all_columns : ℕ → List Attribute → List Var
all_columns column_index [] = []
all_columns column_index (a ∷ attributes) =
    let rest = all_columns (column_index + 1) attributes in
    if a.attisdropped
    then rest
    else record {
      varattno = column_index + 1;
      vartype = a.atttypid;
      vartypmod = a.atttypmod;
      varcollid = a.attcollation;
    }
      ∷ rest

-- `z - 1`
abbrev pub decrement : ℤ → ℤ
decrement (pos zero) = negsuc 0
decrement (pos (suc n)) = pos n
decrement (negsuc n) = negsuc (suc n)

-- `sampleRows` up to `sampleRowCount`, `rowCount` and `rowCountToSkip`
pub record Sample (Row Seed : Type 0) : Type 0 where
  pub sample_rows : List Row
  pub row_count : ℕ
  pub row_count_to_skip : ℤ
  pub selection_state : Seed

module _ (random : Random) {Row : Type 0} where
  open random use {Seed, init_selection_state, get_next_s, random_index}

  -- a new number of rows to skip, where there is none
  unfoldable pub choose_skip : ℕ → Sample Row Seed → Sample Row Seed
  choose_skip target s =
      let (skip, seed) = get_next_s s.row_count target s.selection_state in
      if is_negative s.row_count_to_skip
      then record s { row_count_to_skip = pos skip; selection_state = seed }
      else s

  -- the replacement of a sampled row by this one
  unfoldable pub replace_row : ℕ → Row → Sample Row Seed → Result (Sample Row Seed)
  replace_row target row s = do
    let (index, seed) = random_index target s.selection_state
    rows ← store_at s.sample_rows index row
    ok (record s { sample_rows = rows; selection_state = seed })

  -- one round of the loop, for a row that was read
  unfoldable pub sample_row : ℕ → Row → Sample Row Seed → Result (Sample Row Seed)
  sample_row target row s =
      if ltb (length s.sample_rows) target
      then ok (record s { sample_rows = s.sample_rows ++ row ∷ []; row_count = s.row_count + 1 })
      else (let chosen = choose_skip target s in
          (if is_positive chosen.row_count_to_skip
            then ok chosen
            else replace_row target row chosen)
          >>= (λ next. ok (record next {
            row_count_to_skip = decrement next.row_count_to_skip;
            row_count = next.row_count + 1;
          })))

  -- the loop over the rows of the scan
  unfoldable pub sample_rows_from : ℕ → List Row → Sample Row Seed → Result (Sample Row Seed)
  sample_rows_from target [] s = ok s
  sample_rows_from target (row ∷ rows) s = do
    s' ← sample_row target row s
    sample_rows_from target rows s'

  unfoldable pub acquire_sample_rows : ℕ → List Row → Result (Sample Row Seed)
  acquire_sample_rows target rows = sample_rows_from target rows (record {
    sample_rows = [];
    row_count = 0;
    row_count_to_skip = negsuc 0;
    selection_state = init_selection_state target;
  })
