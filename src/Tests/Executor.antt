-- ===== src/Tests/Executor.antt =====
-- The theorems on the columns of a scan and on the sample of ANALYZE, at concrete inputs.
use cstore_fdw.Prelude.{ℕ, ◌<◌, ◌≡◌, refl, true, false, List, [], ◌∷◌, arith, min, length, All}
use cstore_fdw.Result.{ok}
use cstore_fdw.Postgres.{Attribute}
use cstore_fdw.Reader.{Var}
use cstore_fdw.Reader.Columns.{projected_column_mask}
use cstore_fdw.Writer.Invariant.Column.{Succeeds}
use cstore_fdw.Executor.Columns.{column_list}
use cstore_fdw.Executor.Columns.Mask.{projected_column_mask-column_list}
use cstore_fdw.Executor.Sample.Columns.{column_list-all_columns}
use cstore_fdw.Executor.Sample.{all_columns, Random, RandomLaws, acquire_sample_rows}
use cstore_fdw.Executor.Sample.Reservoir.{acquire_sample_rows-IsSample}
use cstore_fdw.Tests.Formats.{text_column, byte_column}

abbrev three_columns : List Attribute
three_columns = text_column ∷ byte_column ∷ record text_column { attisdropped = true } ∷ []

-- Used are the second column and the third, which is dropped.
abbrev used : List Var
used =
    record { varattno = 2; vartype = 18; vartypmod = 0; varcollid = 0 }
    ∷ record { varattno = 3; vartype = 25; vartypmod = 0; varcollid = 0 }
    ∷ []

column_list_example :
    projected_column_mask 3 (column_list three_columns used) ≡ ok (false ∷ true ∷ false ∷ [])
column_list_example = projected_column_mask-column_list three_columns used (omega arith)

-- Rows to skip are none, one, none and so on, and the first sampled row is replaced.
abbrev random : Random
random = record {
  Seed = ℕ;
  init_selection_state = λ n. 0;
  get_next_s = λ rows target s. (s, 1);
  random_index = λ n s. (0, 0);
}

random_laws : RandomLaws random
random_laws = record { random_index-lt = λ n s h. h }

reservoir_example :
    Succeeds
      (λ s.
        (length s.sample_rows ≡ min 5 2) × (s.row_count ≡ 5) × All (λ row. row < 60) s.sample_rows)
      (acquire_sample_rows random 2 (10 ∷ 20 ∷ 30 ∷ 40 ∷ 50 ∷ []))
reservoir_example =
    acquire_sample_rows-IsSample random random_laws (λ row. row < 60) 2
      (10 ∷ 20 ∷ 30 ∷ 40 ∷ 50 ∷ []) (omega arith)
      (omega arith, (omega arith, (omega arith, (omega arith, (omega arith, tt)))))

all_columns_example :
    column_list three_columns
      (record { varattno = 0; vartype = 2249; vartypmod = 0; varcollid = 0 } ∷ [])
    ≡ all_columns 0 three_columns
all_columns_example =
    column_list-all_columns three_columns
      (record { varattno = 0; vartype = 2249; vartypmod = 0; varcollid = 0 }) [] refl
