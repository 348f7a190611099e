-- ===== src/Writer/Invariant/Overrun.antt =====
-- What becomes of a load where the option `block_row_count` is below that of the table's footer:
-- `existsArray` is shorter than the blocks.
pub mod Load
use cstore_fdw.Prelude.{
  ◌⊎◌, ltb, map, subst, sym, ap, ◌∙◌, ℕ, suc, ◌+◌, ◌/◌, ◌%◌, ◌^◌, ◌≤◌, ◌<◌, ◌≡◌, ◌≢◌, refl, Bool,
  true, false, Option, none, some, List, [], ◌∷◌, arith, length, get_elem?, le→ltb, ◌==◌, ◌-◌, leb,
  Bool-cases, Option-cases, inl, inr, length-replicate, length-set,
}
use native.Mathlib.Nat.{mod-eq_of_lt}
use cstore_fdw.Result.{
  require, and_then, ok-injective, Result, ok, err, fault, could_not_seek, fail_if,
}
use cstore_fdw.Postgres.{Attribute, TupleMacros}
use cstore_fdw.Compression.{CompressionType, Pglz}
use cstore_fdw.SkipNode.{Comparison}
use cstore_fdw.Disk.{Disk, lift, pure}
use cstore_fdw.Disk.Triples.{
  Outcome, Triple, Triple-bind, Triple-given, Triple-any, Triple-lift, Outcome-ok,
}
use cstore_fdw.Protobuf.{Protobuf}
use cstore_fdw.Types.{TableFooter, ColumnBlockSkipNode}
use cstore_fdw.FooterFile.Read.{read_footer}
use cstore_fdw.Datum.{serialize_single_datum}
use cstore_fdw.Writer.{WriteColumn, Stripe, TableWriteState}
use cstore_fdw.Writer.Column.{store_at, start_column, write_cell, write_cells}
use cstore_fdw.Writer.Rows.{
  start_stripe, finish_block, finish_stripe, write_row, write_rows, begin_write, open_table, load,
  end_write, end_of_stripes,
}

compare_cases : (k b : ℕ) → k ≤ b → (k < b) ⊎ (k ≡ b)
compare_cases k b h = elim (Bool-cases (ltb k b)) [
  | inl e ↦ inl (ground (arith, e))
  | inr e ↦ inr (ground (arith, e, h))
]

module _ (macros : TupleMacros) (pglz : Pglz) (protobuf : Protobuf) where
  open macros use {Datum}

  write_cell-overrun :
      (block index : ℕ) (c : WriteColumn Datum) (v : Option Datum)
      → length c.exists_array ≤ index
      → write_cell macros pglz block index c v ≡ err fault
  unfolding write_cell
  write_cell-overrun block index c v h = elim (Option-cases (get_elem? c.skip_nodes block)) [
    | inl e ↦ on_node v e
    | inr (node, e) ↦ on_array v node e
  ]
    where
      on_node :
          (v : Option Datum)
          → get_elem? c.skip_nodes block ≡ none
          → write_cell macros pglz block index c v ≡ err fault
      on_node none e = rw e refl
      on_node (some d) e = rw e refl

      on_array :
          (v : Option Datum) (node : ColumnBlockSkipNode Datum)
          → get_elem? c.skip_nodes block ≡ some node
          → write_cell macros pglz block index c v ≡ err fault
      on_array none node e = rw (e, le→ltb index (length c.exists_array) h) refl
      on_array (some d) node e = rw (e, le→ltb index (length c.exists_array) h) refl

  -- The first column has an `existsArray` of this length.
  abbrev FirstSized : ℕ → List (WriteColumn Datum) → Type 0
  FirstSized b [] = ⊥
  FirstSized b (c ∷ cs) = length c.exists_array ≡ b

  abbrev rows_of : Option Stripe → ℕ
  rows_of none = 0
  rows_of (some stripe) = stripe.row_count

  -- A load that has so many rows in its first block.
  pub record InFirstBlock (b k : ℕ) (w : TableWriteState Datum) : Type 0 where
    pub first_sized : FirstSized b w.columns
    pub block_longer : b < w.table_footer.block_row_count
    pub block_max : w.table_footer.block_row_count ≤ 100000
    pub stripe_longer : b < w.stripe_max_row_count
    pub rows : rows_of w.stripe ≡ k

  -- The result, if it is a value, has the property.
  abbrev UnlessErr : {A : Type 0} → (A → Type 0) → Result A → Type 0
  UnlessErr P (ok a) = P a
  UnlessErr P (err e) = Unit {0}

  Triple-unless :
      {A : Type 0} (P : A → Type 0) (r : Result A)
      → UnlessErr P r
      → Triple (λ d. Unit {0}) (lift r) (λ a d. P a × Unit {0}) (λ e d. Unit {0})
  Triple-unless P (ok a) h = record { run = λ d u. (h, tt) }
  Triple-unless P (err e) h = record { run = λ d u. tt }

  Unless-bind :
      {A C : Type 0} (P : C → Type 0) (r : Result A) (f : A → Result C)
      → ((a : A) → r ≡ ok a → UnlessErr P (f a))
      → UnlessErr P (and_then f r)
  Unless-bind P (ok a) f h = h a refl
  Unless-bind P (err e) f h = tt

  length-store_at :
      {A : Type 0} (xs ys : List A) (i : ℕ) (v : A)
      → store_at xs i v ≡ ok ys
      → length ys ≡ length xs
  length-store_at xs ys i v h = elim (Bool-cases (ltb i (length xs))) [
    | inl e ↦ ap length (sym (ok-injective (rw e at h))) ∙ length-set xs i v
    | inr e ↦ (let stopped = (rw e at h) in cc)
  ]

  length-write_cell :
      (block index : ℕ) (c : WriteColumn Datum) (v : Option Datum)
      → UnlessErr
          (λ c'. length c'.exists_array ≡ length c.exists_array)
          (write_cell macros pglz block index c v)
  unfolding write_cell
  length-write_cell block index c none =
      Unless-bind _ (require (get_elem? c.skip_nodes block) fault) _ (λ node e.
        Unless-bind _ (store_at c.exists_array index false) _
          (λ exists h. length-store_at c.exists_array exists index false h))
  length-write_cell block index c (some d) =
      Unless-bind _ (require (get_elem? c.skip_nodes block) fault) _ (λ node e.
        Unless-bind _ (store_at c.exists_array index true) _ (λ exists h.
          Unless-bind _ (require c.value_buffer fault) _ (λ buffer e'.
            Unless-bind _
              (serialize_single_datum macros buffer d c.attribute.attbyval c.attribute.attlen
                c.attribute.attalign)
              _ (λ values e''. length-store_at c.exists_array exists index true h))))

  write_cells-FirstSized :
      (b block index : ℕ) (cs : List (WriteColumn Datum)) (row : List (Option Datum))
      → FirstSized b cs
      → UnlessErr (FirstSized b) (write_cells macros pglz block index cs row)
  unfolding write_cells
  write_cells-FirstSized b block index [] row h = absurd h
  write_cells-FirstSized b block index (c ∷ cs) [] h = tt
  write_cells-FirstSized b block index (c ∷ cs) (v ∷ row) h =
      Unless-bind _ (write_cell macros pglz block index c v) _ (λ c' e.
        Unless-bind _ (write_cells macros pglz block index cs row) _
          (λ cs' e'. (rw e at (length-write_cell block index c v)) ∙ h))

  write_cells-overrun :
      (b block index : ℕ) (cs : List (WriteColumn Datum)) (row : List (Option Datum))
      → FirstSized b cs
      → b ≤ index
      → UnlessErr (λ cs'. ⊥) (write_cells macros pglz block index cs row)
  unfolding write_cells
  write_cells-overrun b block index [] row h le = absurd h
  write_cells-overrun b block index (c ∷ cs) [] h le = tt
  write_cells-overrun b block index (c ∷ cs) (v ∷ row) h le =
      rw (write_cell-overrun block index c v (omega (arith, h, le))) tt

  start_columns-FirstSized :
      (b m r : ℕ) (cs : List (WriteColumn Datum))
      → FirstSized b cs
      → FirstSized b (map (start_column macros pglz m r) cs)
  unfolding start_column
  start_columns-FirstSized b m r [] h = h
  start_columns-FirstSized b m r (c ∷ cs) h = h

  start_stripe-FirstSized :
      (b r : ℕ) (w : TableWriteState Datum) (o : Option Stripe)
      → FirstSized b w.columns
      → let (stripe, cs) = start_stripe macros pglz protobuf r w o in
        (stripe.row_count ≡ rows_of o) × FirstSized b cs
  unfolding start_stripe
  start_stripe-FirstSized b r w none h =
      (refl, start_columns-FirstSized b w.stripe_max_row_count r w.columns h)
  start_stripe-FirstSized b r w (some stripe) h = (refl, h)

  -- A row that the first `existsArray` has an entry for is put into the first block.
  write_row-InFirstBlock :
      (b k : ℕ) (w : TableWriteState Datum) (row : List (Option Datum))
      → InFirstBlock b k w
      → k < b
      → Triple
          (λ d. Unit {0})
          (write_row macros pglz protobuf w row)
          (λ w' d. InFirstBlock b (suc k) w' × Unit {0})
          (λ e d. Unit {0})
  unfolding write_row finish_block finish_stripe
  write_row-InFirstBlock b k w row h below =
      let B = w.table_footer.block_row_count in
      let r = B % 2 ^ 32 in
      let (stripe, started) = start_stripe macros pglz protobuf r w w.stripe in
      let s = start_stripe-FirstSized b r w w.stripe h.first_sized in
      let n = stripe.row_count in
      let count : n ≡ k = s.0 ∙ h.rows in
      let same : r ≡ B = omega (arith, h.block_max) in
      let within : n % r ≡ n = mod-eq_of_lt (omega (arith, same, count, h.block_longer)) in
      let not_last : (n % r == r - 1) ≡ false =
        ground (arith, same, within, count, h.block_longer) in
      let next : (n + 1) % 2 ^ 32 ≡ suc k = omega (arith, count, h.block_max, h.block_longer) in
      let more : leb w.stripe_max_row_count ((n + 1) % 2 ^ 32) ≡ false =
        ground (arith, next, h.stripe_longer) in
      Triple-bind (lift (fail_if (r == 0) fault)) _ (Triple-any _) (λ _.
        Triple-bind (lift (write_cells macros pglz (n / r) (n % r) started row)) _
          (Triple-unless (FirstSized b) _
            (write_cells-FirstSized b (n / r) (n % r) started row s.1))
          (λ written. Triple-given (λ sized.
            rw (not_last, more)
              (record {
                run = λ d u. (
                  record {
                    first_sized = sized;
                    block_longer = h.block_longer;
                    block_max = h.block_max;
                    stripe_longer = h.stripe_longer;
                    rows = next;
                  },
                  tt,
                );
              }))))

  -- The row behind the first `existsArray` is not taken in.
  write_row-overrun :
      (b : ℕ) (w : TableWriteState Datum) (row : List (Option Datum))
      → InFirstBlock b b w
      → Triple
          (λ d. Unit {0})
          (write_row macros pglz protobuf w row)
          (λ w' d. ⊥ × Unit {0})
          (λ e d. Unit {0})
  unfolding write_row
  write_row-overrun b w row h =
      let B = w.table_footer.block_row_count in
      let r = B % 2 ^ 32 in
      let (stripe, started) = start_stripe macros pglz protobuf r w w.stripe in
      let s = start_stripe-FirstSized b r w w.stripe h.first_sized in
      let n = stripe.row_count in
      let count : n ≡ b = s.0 ∙ h.rows in
      let same : r ≡ B = omega (arith, h.block_max) in
      let within : n % r ≡ n = mod-eq_of_lt (omega (arith, same, count, h.block_longer)) in
      Triple-bind (lift (fail_if (r == 0) fault)) _ (Triple-any _) (λ _.
        Triple-bind (lift (write_cells macros pglz (n / r) (n % r) started row)) _
          (Triple-unless (λ cs. ⊥) _
            (write_cells-overrun b (n / r) (n % r) started row s.1 (omega (arith, within, count))))
          (λ written. Triple-given (λ impossible. absurd impossible)))

  pub write_rows-overrun :
      (b k : ℕ) (w : TableWriteState Datum) (rows : List (List (Option Datum)))
      → InFirstBlock b k w
      → k ≤ b
      → b < k + length rows
      → Triple
          (λ d. Unit {0})
          (write_rows macros pglz protobuf w rows)
          (λ w' d. ⊥ × Unit {0})
          (λ e d. Unit {0})
  unfolding write_rows
  write_rows-overrun b k w [] h le many = absurd (omega arith)
  write_rows-overrun b k w (row ∷ rows) h le many = elim (compare_cases k b le) [
    | inl below ↦
        Triple-bind (write_row macros pglz protobuf w row) _
          (write_row-InFirstBlock b k w row h below)
          (λ w'.
            Triple-given
              (λ h'. write_rows-overrun b (suc k) w' rows h' (omega arith) (omega arith)))
    | inr last ↦
        Triple-bind (write_row macros pglz protobuf w row) _
          (write_row-overrun b w row (subst (λ i. InFirstBlock b i w) last h))
          (λ w'. Triple-given (λ impossible. absurd impossible))
  ]
