-- ===== src/Reader/Rows/Stripe.antt =====
-- The calls of `CStoreReadNextRow` (cstore_reader.c) on one loaded stripe.
use cstore_fdw.Prelude.{
  ℕ, zero, suc, ◌+◌, ◌*◌, ◌/◌, ◌%◌, ◌^◌, ◌≤◌, ◌<◌, ◌≡◌, refl, sym, ap, ap₂, subst, ◌∙◌, true, false,
  none, some, List, ◌++◌, arith, ◌==◌, if◌then◌else◌, length, append_assoc,
}
use native.Mathlib.Nat.{
  mul-add-div_right, mul-add-mod_self_right, mod-eq_of_lt, mod-lt, div-eq_of_lt, div-add-mod,
  div-le_self, mul-le-mul_right,
}
use cstore_fdw.Result.{Result, ok, >>=-eq-ok, ok-injective}
use cstore_fdw.Postgres.{TupleMacros}
use cstore_fdw.Compression.{Pglz}
use cstore_fdw.Protobuf.{Protobuf}
use cstore_fdw.Reader.{StripeBuffers}
use cstore_fdw.Reader.Columns.{read_stripe_next_row}
use cstore_fdw.Reader.Constraints.{Planner}
use cstore_fdw.Reader.Blocks.{deserialize_block_data}
use cstore_fdw.Reader.Rows.{rows_of_block, ensure_stripe, ensure_block, read_row, read_next_row}
use cstore_fdw.Reader.Rows.Reference.{
  Row, Arrays, Scan, scan, block_rows, whole_block, last_block, stripe_rows,
}

-- The parts of a successful step.
pub pair_eq :
    {A B : Type 0} {a a' : A} {b b' : B}
    → ◌≡◌ {A = Result (A × B)} (ok (a, b)) (ok (a', b'))
    → (a ≡ a') × (b ≡ b')
pair_eq e = (ap (λ p. p.0) (ok-injective e), ap (λ p. p.1) (ok-injective e))

==_lt : (a b : ℕ) → a < b → (a == b) ≡ false
==_lt a b h = ground arith

module _ (macros : TupleMacros) (pglz : Pglz) (protobuf : Protobuf)
    (planner : Planner macros.Datum) where
  -- The scan gives these rows, one for each call, and then false.
  abbrev pub Reads :
      Scan macros pglz protobuf planner → List (Row macros pglz protobuf planner) → Type 0
  Reads s rows = scan macros pglz protobuf planner (suc (length rows)) s ≡ ok (some rows)

  module _ (s : Scan macros pglz protobuf planner) (stripe : StripeBuffers) where
    -- A scan that has read so many rows of the stripe, with these arrays from this block.
    abbrev pub at : ℕ → Arrays macros pglz protobuf planner → ℕ → Scan macros pglz protobuf planner
    at i arrays block = record s {
      stripe_read_row_count = i;
      stripe_buffers = if i == stripe.row_count then none else some stripe;
      block_data = arrays;
      deserialized_block_index = block;
    }

    read_next_row-loaded :
        (i block : ℕ) (arrays : Arrays macros pglz protobuf planner)
        (row : Row macros pglz protobuf planner)
        → i < stripe.row_count
        → stripe.row_count < 2 ^ 32
        → 0 < s.table_footer.block_row_count
        → i / s.table_footer.block_row_count % 2 ^ 32 ≡ block
        → read_stripe_next_row stripe.column_count s.projected_columns
            (i % s.table_footer.block_row_count)
            arrays
          ≡ ok row
        → read_next_row macros pglz protobuf planner (at i arrays block)
          ≡ ok (some row, at (i + 1) arrays block)
    unfolding read_next_row ensure_stripe read_row ensure_block
    read_next_row-loaded i block arrays row in_stripe small rows here read =
        let whole : (i + 1) % 2 ^ 64 ≡ i + 1 = omega arith in
        let some_rows : (s.table_footer.block_row_count == 0) ≡ false = ground arith in
        let same : (i / s.table_footer.block_row_count % 2 ^ 32 == block) ≡ true = ground arith in
        rw (==_lt i stripe.row_count in_stripe, some_rows, same, read, whole) refl

    -- Reading from the arrays of another block is reading from those of this block, deserialized.
    read_next_row-load :
        (i block old : ℕ) (arrays loaded : Arrays macros pglz protobuf planner)
        → i < stripe.row_count
        → 0 < s.table_footer.block_row_count
        → i / s.table_footer.block_row_count % 2 ^ 32 ≡ block
        → (block == old) ≡ false
        → deserialize_block_data macros pglz planner stripe block
            (rows_of_block stripe.row_count s.table_footer.block_row_count block)
            arrays
            s.attributes
            s.defaults
          ≡ ok loaded
        → read_next_row macros pglz protobuf planner (at i arrays old)
          ≡ read_next_row macros pglz protobuf planner (at i loaded block)
    unfolding read_next_row ensure_stripe read_row ensure_block
    read_next_row-load i block old arrays loaded in_stripe rows here other done =
        let some_rows : (s.table_footer.block_row_count == 0) ≡ false = ground arith in
        let same : (block == block) ≡ true = ground arith in
        rw (==_lt i stripe.row_count in_stripe, some_rows, here, other, done, same) refl

    row_of :
        (i j block : ℕ)
        → j < s.table_footer.block_row_count
        → i ≡ block * s.table_footer.block_row_count + j
        → (i / s.table_footer.block_row_count ≡ block) × (i % s.table_footer.block_row_count ≡ j)
    row_of i j block lt e = rw e (
      mul-add-div_right (omega arith) block j ∙ ap (λ k. block + k) (div-eq_of_lt lt) ∙ omega arith,
      mul-add-mod_self_right block s.table_footer.block_row_count j ∙ mod-eq_of_lt lt,
    )

    -- The rest of a block, read call by call.
    scan-block :
        (n i j block : ℕ) (arrays : Arrays macros pglz protobuf planner)
        (rows tail : List (Row macros pglz protobuf planner))
        → i ≡ block * s.table_footer.block_row_count + j
        → j + n ≤ s.table_footer.block_row_count
        → i + n ≤ stripe.row_count
        → block < 2 ^ 32
        → stripe.row_count < 2 ^ 32
        → block_rows macros pglz protobuf planner s stripe n j arrays ≡ ok rows
        → Reads (at (i + n) arrays block) tail
        → Reads (at i arrays block) (rows ++ tail)
    scan-block zero i j block arrays rows tail e in_block in_stripe few small done h =
        subst (λ l. Reads (at i arrays block) (l ++ tail)) (ok-injective done)
          (subst (λ k. Reads (at k arrays block) tail) (omega arith) h)
    scan-block (suc n) i j block arrays rows tail e in_block in_stripe few small done h =
        let (row, read, next) =
          >>=-eq-ok (read_stripe_next_row stripe.column_count s.projected_columns j arrays) _
            done in
        let (rest, more, last) =
          >>=-eq-ok (block_rows macros pglz protobuf planner s stripe n (j + 1) arrays) _ next in
        let (at_block, at_row) = row_of i j block (omega arith) e in
        let whole : i / s.table_footer.block_row_count % 2 ^ 32 ≡ block = omega arith in
        let read' : read_stripe_next_row stripe.column_count s.projected_columns
              (i % s.table_footer.block_row_count) arrays
            ≡ ok row =
          rw at_row read in
        let step =
          read_next_row-loaded i block arrays row (omega arith) small (omega arith) whole read' in
        let ih =
          scan-block n (i + 1) (j + 1) block arrays rest tail (omega arith) (omega arith)
            (omega arith) few small more
            (subst (λ k. Reads (at k arrays block) tail) (omega arith) h) in
        subst (λ l. Reads (at i arrays block) (l ++ tail)) (ok-injective last) (rw (step, ih) refl)

    -- A block, from the arrays of another one.
    scan-whole_block :
        (n i block old : ℕ) (arrays loaded : Arrays macros pglz protobuf planner)
        (rows tail : List (Row macros pglz protobuf planner))
        → i ≡ block * s.table_footer.block_row_count
        → 0 < n
        → n ≤ s.table_footer.block_row_count
        → i + n ≤ stripe.row_count
        → block < 2 ^ 32
        → stripe.row_count < 2 ^ 32
        → rows_of_block stripe.row_count s.table_footer.block_row_count block ≡ n
        → (block == old) ≡ false
        → whole_block macros pglz protobuf planner s stripe block n arrays ≡ ok (rows, loaded)
        → Reads (at (i + n) loaded block) tail
        → Reads (at i arrays old) (rows ++ tail)
    scan-whole_block n i block old arrays loaded rows tail e pos in_block in_stripe few small size
          other done h =
        let (data', deserialized, next) =
          >>=-eq-ok
            (deserialize_block_data macros pglz planner stripe block n arrays s.attributes
              s.defaults)
            _ done in
        let (rows', read, both) =
          >>=-eq-ok (block_rows macros pglz protobuf planner s stripe n 0 data') _ next in
        let result = ok-injective both in
        let (at_block, at_row) = row_of i 0 block (omega arith) (omega arith) in
        let whole : i / s.table_footer.block_row_count % 2 ^ 32 ≡ block = omega arith in
        let load =
          read_next_row-load i block old arrays data' (omega arith) (omega arith) whole other
            (rw size deserialized) in
        let reads : Reads (at i data' block) (rows' ++ tail) =
          scan-block n i 0 block data' rows' tail (omega arith) (omega arith) in_stripe few small
            read (subst (λ a. Reads (at (i + n) a block) tail) (sym (ap (λ p. p.1) result)) h) in
        subst (λ l. Reads (at i arrays old) (l ++ tail)) (ap (λ p. p.0) result) (rw load reads)

    -- The rows of the full blocks and the rest are all rows.
    full_and_rest :
        (block n : ℕ)
        → stripe.row_count / s.table_footer.block_row_count ≡ block
        → stripe.row_count % s.table_footer.block_row_count ≡ n
        → stripe.row_count ≡ block * s.table_footer.block_row_count + n
    full_and_rest block n blocks rest =
        sym (div-add-mod stripe.row_count s.table_footer.block_row_count)
        ∙ ap₂ (λ k r. s.table_footer.block_row_count * k + r) blocks rest
        ∙ omega arith

    scan-last_block :
        (n i block old : ℕ) (arrays last : Arrays macros pglz protobuf planner)
        (rows tail : List (Row macros pglz protobuf planner))
        → 0 < s.table_footer.block_row_count
        → i ≡ block * s.table_footer.block_row_count
        → stripe.row_count / s.table_footer.block_row_count ≡ block
        → stripe.row_count % s.table_footer.block_row_count ≡ n
        → stripe.row_count < 2 ^ 32
        → (block == old) ≡ false
        → last_block macros pglz protobuf planner s stripe block n arrays ≡ ok (rows, last)
        → ((k : ℕ) → Reads (at stripe.row_count last k) tail)
        → Reads (at i arrays old) (rows ++ tail)
    scan-last_block zero i block old arrays last rows tail pos e blocks rest small other done h =
        let (no_rows, same) = pair_eq done in
        let finished : stripe.row_count ≡ i = full_and_rest block 0 blocks rest ∙ omega arith in
        subst (λ l. Reads (at i arrays old) (l ++ tail)) no_rows
          (subst (λ k. Reads (at k arrays old) tail) finished
            (subst (λ a. Reads (at stripe.row_count a old) tail) (sym same) (h old)))
    scan-last_block (suc n) i block old arrays last rows tail pos e blocks rest small other done h =
        let whole = full_and_rest block (suc n) blocks rest in
        let below = mod-lt stripe.row_count pos in
        let few = div-le_self stripe.row_count s.table_footer.block_row_count in
        let size : rows_of_block stripe.row_count s.table_footer.block_row_count block ≡ suc n =
          ground arith in
        scan-whole_block (suc n) i block old arrays last rows tail e (omega arith) (omega arith)
          (omega arith) (omega arith) small size other done
          (subst (λ k. Reads (at k last block) tail) (omega arith) (h block))

    pub scan-stripe :
        (m i block old : ℕ) (arrays last : Arrays macros pglz protobuf planner)
        (rows tail : List (Row macros pglz protobuf planner))
        → 0 < s.table_footer.block_row_count
        → i ≡ block * s.table_footer.block_row_count
        → stripe.row_count / s.table_footer.block_row_count ≡ block + m
        → stripe.row_count < 2 ^ 32
        → (block == old) ≡ false
        → stripe_rows macros pglz protobuf planner s stripe m block arrays ≡ ok (rows, last)
        → ((k : ℕ) → Reads (at stripe.row_count last k) tail)
        → Reads (at i arrays old) (rows ++ tail)
    scan-stripe zero i block old arrays last rows tail pos e blocks small other done h =
        scan-last_block (stripe.row_count % s.table_footer.block_row_count) i block old arrays last
          rows tail pos e (omega arith) refl small other done h
    scan-stripe (suc m) i block old arrays last rows tail pos e blocks small other done h =
        let ((first, loaded), whole, next) =
          >>=-eq-ok
            (whole_block macros pglz protobuf planner s stripe block s.table_footer.block_row_count
              arrays)
            _ done in
        let ((rest, last'), more, both) =
          >>=-eq-ok (stripe_rows macros pglz protobuf planner s stripe m (block + 1) loaded) _
            next in
        let result = pair_eq both in
        let few = div-le_self stripe.row_count s.table_footer.block_row_count in
        let all = full_and_rest _ _ refl refl in
        let full : (block + 1) * s.table_footer.block_row_count
            ≤ stripe.row_count / s.table_footer.block_row_count * s.table_footer.block_row_count =
          mul-le-mul_right s.table_footer.block_row_count (omega arith) in
        let fits : i + s.table_footer.block_row_count ≤ stripe.row_count = omega arith in
        let ih : Reads (at (i + s.table_footer.block_row_count) loaded block) (rest ++ tail) =
          scan-stripe m (i + s.table_footer.block_row_count) (block + 1) block loaded last' rest
            tail pos (omega arith) (omega arith) small (ground arith) more
            (subst (λ a. (k : ℕ) → Reads (at stripe.row_count a k) tail) (sym result.1) h) in
        subst (λ l. Reads (at i arrays old) l)
          (sym (append_assoc first rest tail) ∙ ap (λ l. l ++ tail) result.0)
          (scan-whole_block s.table_footer.block_row_count i block old arrays loaded first
            (rest ++ tail) e pos (omega arith) fits (omega arith) small (ground arith) other whole
            ih)
