-- ===== src/Executor/Sample/Reservoir.antt =====
-- The sample that ANALYZE takes (`CStoreAcquireSampleRows`, cstore_fdw.c).
use cstore_fdw.Prelude.{
  ℕ, ◌+◌, ◌≤◌, ◌<◌, ◌≡◌, refl, ap, subst, ◌∙◌, inl, inr, List, [], ◌∷◌, ◌++◌, arith, min, ltb,
  if◌then◌else◌, length, All, All-set, Bool-cases, length-set, length-append,
}
use cstore_fdw.Prelude.Int.{negsuc, is_positive, is_negative}
use cstore_fdw.Result.{ok}
use cstore_fdw.Writer.Invariant.Column.{Succeeds, value_of, store_at-ok}
use cstore_fdw.Executor.Sample.{
  Random, RandomLaws, Sample, choose_skip, replace_row, sample_row, sample_rows_from,
  acquire_sample_rows,
}

All-append : {A : Type 0} (P : A → Type 0) (xs ys : List A) → All P xs → All P ys → All P (xs ++ ys)
All-append P [] ys h k = k
All-append P (x ∷ xs) ys h k = (h.0, All-append P xs ys h.1 k)

module _ (random : Random) (laws : RandomLaws random) {Row : Type 0} (From : Row → Type 0) where
  open random use {Seed}

  -- After so many rows, of which all have a property.
  record IsSample (target n : ℕ) (s : Sample Row Seed) : Type 0 where
    sized : length s.sample_rows ≡ min n target
    counted : s.row_count ≡ n
    from_rows : All From s.sample_rows

  choose_skip-IsSample :
      (target n : ℕ) (s : Sample Row Seed)
      → IsSample target n s
      → IsSample target n (choose_skip random target s)
  unfolding choose_skip
  choose_skip-IsSample target n s h = elim (Bool-cases (is_negative s.row_count_to_skip)) [
    | inl e ↦ rw e (record { sized = h.sized; counted = h.counted; from_rows = h.from_rows })
    | inr e ↦ rw e h
  ]

  replace_row-IsSample :
      (target n : ℕ) (row : Row) (s : Sample Row Seed)
      → 0 < target
      → target ≤ n
      → From row
      → IsSample target n s
      → Succeeds (IsSample target n) (replace_row random target row s)
  unfolding replace_row
  replace_row-IsSample target n row s some_rows full from h =
      let index = (random.random_index target s.selection_state).0 in
      let below : index < length s.sample_rows =
        omega (arith, laws.random_index-lt target s.selection_state some_rows, h.sized) in
      rw (store_at-ok s.sample_rows index row below) (record {
        sized = length-set s.sample_rows index row ∙ h.sized;
        counted = h.counted;
        from_rows = All-set From s.sample_rows index row h.from_rows from;
      })

  -- The part for a full sample.
  full-IsSample :
      (target n : ℕ) (row : Row) (s : Sample Row Seed)
      → 0 < target
      → target ≤ n
      → From row
      → IsSample target n s
      → Succeeds
          (IsSample target n)
          (if is_positive s.row_count_to_skip then ok s else replace_row random target row s)
  full-IsSample target n row s some_rows full from h =
      elim (Bool-cases (is_positive s.row_count_to_skip)) [
        | inl e ↦ rw e h
        | inr e ↦ rw e (replace_row-IsSample target n row s some_rows full from h)
      ]

  sample_row-IsSample :
      (target n : ℕ) (row : Row) (s : Sample Row Seed)
      → 0 < target
      → From row
      → IsSample target n s
      → Succeeds (IsSample target (n + 1)) (sample_row random target row s)
  unfolding sample_row
  sample_row-IsSample target n row s some_rows from h =
      elim (Bool-cases (ltb (length s.sample_rows) target)) [
        | inl e ↦ rw e (record {
          sized = ground (arith, h.sized, length-append s.sample_rows (row ∷ []));
          counted = ap (λ k. k + 1) h.counted;
          from_rows = All-append From s.sample_rows (row ∷ []) h.from_rows (from, tt);
        })
        | inr e ↦
            let full : target ≤ n = ground (arith, h.sized) in
            let chosen = choose_skip random target s in
            let (next, e', h') =
              value_of
                (if is_positive chosen.row_count_to_skip
                  then ok chosen
                  else replace_row random target row chosen)
                (full-IsSample target n row chosen some_rows full from
                  (choose_skip-IsSample target n s h)) in
            rw (e, e')
              (record {
                sized = h'.sized ∙ omega arith;
                counted = ap (λ k. k + 1) h'.counted;
                from_rows = h'.from_rows;
              })
      ]

  sample_rows_from-IsSample :
      (target n : ℕ) (rows : List Row) (s : Sample Row Seed)
      → 0 < target
      → All From rows
      → IsSample target n s
      → Succeeds (IsSample target (n + length rows)) (sample_rows_from random target rows s)
  unfolding sample_rows_from
  sample_rows_from-IsSample target n [] s some_rows from h =
      subst (λ k. IsSample target k s) (omega arith) h
  sample_rows_from-IsSample target n (row ∷ rows) s some_rows from h =
      let (s', e, h') =
        value_of (sample_row random target row s)
          (sample_row-IsSample target n row s some_rows from.0 h) in
      rw e (
        subst (λ k. Succeeds (IsSample target k) (sample_rows_from random target rows s'))
          (omega arith) (sample_rows_from-IsSample target (n + 1) rows s' some_rows from.1 h'))

  -- Sampling for a positive number of rows succeeds whatever is drawn: the sample has as many rows
  -- as asked for, or all if there are fewer, each has any property that all rows of the scan have,
  -- and the rows of the scan are counted.
  pub acquire_sample_rows-IsSample :
      (target : ℕ) (rows : List Row)
      → 0 < target
      → All From rows
      → Succeeds
          (λ s.
            (length s.sample_rows ≡ min (length rows) target)
            × (s.row_count ≡ length rows)
            × All From s.sample_rows)
          (acquire_sample_rows random target rows)
  unfolding acquire_sample_rows
  acquire_sample_rows-IsSample target rows some_rows from =
      let start : Sample Row Seed = record {
        sample_rows = [];
        row_count = 0;
        row_count_to_skip = negsuc 0;
        selection_state = random.init_selection_state target;
      } in
      let (s, e, h) = value_of (sample_rows_from random target rows start) (
        sample_rows_from-IsSample target 0 rows start some_rows from
          (record { sized = omega arith; counted = refl; from_rows = tt })) in
      rw e (h.sized ∙ omega arith, h.counted ∙ omega arith, h.from_rows)
