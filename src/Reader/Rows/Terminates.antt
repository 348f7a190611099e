-- ===== src/Reader/Rows/Terminates.antt =====
-- The calls of `CStoreReadNextRow` (cstore_reader.c) come to an end.
use cstore_fdw.Prelude.{
  ℕ, zero, suc, ◌+◌, ◌-◌, ◌*◌, ◌/◌, ◌%◌, ◌^◌, ◌≤◌, ◌<◌, ◌≡◌, ◌≢◌, refl, sym, ap, subst, inl, inr,
  Bool, true, false, Option, none, some, List, [], ◌∷◌, arith, ◌==◌, if◌then◌else◌, length, drop,
  Bool-cases, Option-cases, length-drop,
}
use cstore_fdw.Result.{
  Result, ok, err, ◌>>=◌, fail_if, require, fault, could_not_open, >>=-eq-ok, ok-injective,
}
use cstore_fdw.Postgres.{Attribute, TupleMacros}
use cstore_fdw.Compression.{Pglz}
use cstore_fdw.Disk.{Disk}
use cstore_fdw.Protobuf.{Protobuf}
use cstore_fdw.Types.{StripeMetadata}
use cstore_fdw.Reader.{StripeBuffers, Var, AttrDefault}
use cstore_fdw.Reader.Constraints.{Planner}
use cstore_fdw.Reader.Loading.{load_filtered_stripe_buffers}
use cstore_fdw.Reader.Blocks.{deserialize_block_data}
use cstore_fdw.Reader.Columns.{projected_column_mask, read_stripe_next_row}
use cstore_fdw.FooterFile.Read.{read_footer}
use cstore_fdw.Reader.Loading.Counts.{
  load_filtered_stripe_buffers-lt, WhenOk, WhenOk-bind, WhenOk-then, WhenOk-ok,
}
use cstore_fdw.Reader.Rows.{
  rows_of_block, begin_read, skip_stripe, load_next_stripe, ensure_stripe, ensure_block, pass_row,
  read_row, read_next_row,
}
use cstore_fdw.Reader.Rows.Reference.{Row, Scan, more, scan}

WhenOk-if :
    {A : Type 0} (P : A → Type 0) (b : Bool) (x y : Result A)
    → (b ≡ true → WhenOk P x)
    → (b ≡ false → WhenOk P y)
    → WhenOk P (if b then x else y)
WhenOk-if P true x y h k = h refl
WhenOk-if P false x y h k = k refl

WhenOk-imp :
    {A : Type 0} (P Q : A → Type 0) (r : Result A) → ((a : A) → P a → Q a) → WhenOk P r → WhenOk Q r
WhenOk-imp P Q (ok a) f h = f a h
WhenOk-imp P Q (err e) f h = tt

-- The rows of a stripe that are not read.
abbrev rows_ahead : Option StripeBuffers → ℕ → ℕ
rows_ahead none i = 0
rows_ahead (some stripe) i = stripe.row_count - i

abbrev InStripe : Option StripeBuffers → ℕ → Type 0
InStripe none i = Unit {0}
InStripe (some stripe) i = (i < stripe.row_count) × (stripe.row_count < 2 ^ 32)

module _ (macros : TupleMacros) (pglz : Pglz) (protobuf : Protobuf)
    (planner : Planner macros.Datum) where
  abbrev unread : Scan macros pglz protobuf planner → ℕ
  unread s = length s.table_footer.stripe_metadata_list - s.read_stripe_count

  -- A bound on the rows that the scan can still give.
  abbrev rows_left : Scan macros pglz protobuf planner → ℕ
  rows_left s = rows_ahead s.stripe_buffers s.stripe_read_row_count + 2 ^ 32 * unread s

  -- A loaded stripe has rows that are not read, and the count of the stripes is in range.
  record IsReading (s : Scan macros pglz protobuf planner) : Type 0 where
    in_stripe : InStripe s.stripe_buffers s.stripe_read_row_count
    few : length s.table_footer.stripe_metadata_list < 2 ^ 32
    in_table : s.read_stripe_count ≤ length s.table_footer.stripe_metadata_list

  -- The scan goes on from `s` with no more rows to give.
  abbrev Follows :
      Scan macros pglz protobuf planner → Bool × Scan macros pglz protobuf planner → Type 0
  Follows s (found, s') = IsReading s' × (rows_left s' ≤ rows_left s)

  load_next_stripe-Follows :
      (stripes : List StripeMetadata) (s : Scan macros pglz protobuf planner)
      → s.stripe_buffers ≡ none
      → length stripes ≡ unread s
      → IsReading s
      → WhenOk (Follows s) (load_next_stripe macros pglz protobuf planner s stripes)
  unfolding load_next_stripe
  load_next_stripe-Follows [] s idle left h = (h, omega arith)
  load_next_stripe-Follows (m ∷ stripes) s idle left h =
      WhenOk-then (λ stripe. stripe.row_count < 2 ^ 32) (Follows s)
        (load_filtered_stripe_buffers macros protobuf planner s.table_file m s.attributes
          s.projected_columns s.where_clauses)
        _
        (load_filtered_stripe_buffers-lt macros protobuf planner s.table_file m s.attributes
          s.projected_columns s.where_clauses)
        (λ stripe small.
          WhenOk-if (Follows s) (stripe.row_count == 0) _ _
            (λ e.
              WhenOk-imp (Follows (skip_stripe macros pglz protobuf planner s)) (Follows s) _
                (λ (found, s') (reading, less). (reading, omega (arith, less, h.few, h.in_table)))
                (load_next_stripe-Follows stripes (skip_stripe macros pglz protobuf planner s) idle
                  (omega (arith, h.few, h.in_table))
                  (record {
                    in_stripe = h.in_stripe;
                    few = h.few;
                    in_table = omega (arith, h.few, h.in_table);
                  })))
            (λ e. (
              record {
                in_stripe = (ground arith, small);
                few = h.few;
                in_table = omega (arith, h.few, h.in_table);
              },
              omega (arith, h.few, h.in_table),
            )))

  -- A row that is given is one row less to give.
  abbrev Passes :
      Scan macros pglz protobuf planner
      → Option (Row macros pglz protobuf planner) × Scan macros pglz protobuf planner
      → Type 0
  Passes s (none, s') = Unit {0}
  Passes s (some row, s') = IsReading s' × (rows_left s' < rows_left s)

  ensure_stripe-Follows :
      (s : Scan macros pglz protobuf planner)
      → IsReading s
      → WhenOk (Follows s) (ensure_stripe macros pglz protobuf planner s s.stripe_buffers)
  unfolding ensure_stripe
  ensure_stripe-Follows s h = elim (Option-cases s.stripe_buffers) [
    | inl e ↦
        subst (λ o. WhenOk (Follows s) (ensure_stripe macros pglz protobuf planner s o)) (sym e)
          (load_next_stripe-Follows (drop s.read_stripe_count s.table_footer.stripe_metadata_list) s
            e (length-drop s.read_stripe_count s.table_footer.stripe_metadata_list) h)
    | inr (stripe, e) ↦
        subst (λ o. WhenOk (Follows s) (ensure_stripe macros pglz protobuf planner s o)) (sym e)
          (h, omega arith)
  ]

  pass_row-Passes :
      (s : Scan macros pglz protobuf planner) (stripe : StripeBuffers)
      (row : Row macros pglz protobuf planner)
      → s.stripe_buffers ≡ some stripe
      → IsReading s
      → Passes s (some row, pass_row macros pglz protobuf planner s stripe)
  pass_row-Passes s stripe row e h =
      let (below, small) : InStripe (some stripe) s.stripe_read_row_count =
        subst (λ o. InStripe o s.stripe_read_row_count) e h.in_stripe in
      let whole : (s.stripe_read_row_count + 1) % 2 ^ 64 ≡ s.stripe_read_row_count + 1 =
        omega arith in
      let ahead : rows_ahead s.stripe_buffers s.stripe_read_row_count
          ≡ stripe.row_count - s.stripe_read_row_count =
        ap (λ o. rows_ahead o s.stripe_read_row_count) e in
      elim (Bool-cases (s.stripe_read_row_count + 1 == stripe.row_count)) [
        | inl last ↦
            rw (whole, last)
              (record { in_stripe = tt; few = h.few; in_table = h.in_table }, omega arith)
        | inr more ↦
            rw (whole, more)
              (
                record { in_stripe = (ground arith, small); few = h.few; in_table = h.in_table },
                omega arith,
              )
      ]

  -- A block's arrays say nothing of the place of the scan.
  ensure_block-place :
      (s : Scan macros pglz protobuf planner) (stripe : StripeBuffers) (block : ℕ)
      → s.stripe_buffers ≡ some stripe
      → IsReading s
      → WhenOk
          (λ s'. (s'.stripe_buffers ≡ some stripe) × IsReading s' × (rows_left s' ≡ rows_left s))
          (ensure_block macros pglz protobuf planner s stripe block)
  unfolding ensure_block
  ensure_block-place s stripe block e h =
      WhenOk-if _ (block == s.deserialized_block_index) _ _ (λ same. (e, h, refl))
        (λ other.
          WhenOk-bind _
            (deserialize_block_data macros pglz planner stripe block
              (rows_of_block stripe.row_count s.table_footer.block_row_count block) s.block_data
              s.attributes s.defaults)
            _
            (λ arrays.
              (e, record { in_stripe = h.in_stripe; few = h.few; in_table = h.in_table }, refl)))

  read_row-Passes :
      (s : Scan macros pglz protobuf planner) (stripe : StripeBuffers)
      → s.stripe_buffers ≡ some stripe
      → IsReading s
      → WhenOk (Passes s) (read_row macros pglz protobuf planner s stripe)
  unfolding read_row
  read_row-Passes s stripe e h =
      WhenOk-bind (Passes s) (fail_if (s.table_footer.block_row_count == 0) fault) _ (λ pos.
        WhenOk-then _ (Passes s)
          (ensure_block macros pglz protobuf planner s stripe
            (s.stripe_read_row_count / s.table_footer.block_row_count % 2 ^ 32))
          _ (ensure_block-place s stripe _ e h)
          (λ loaded (e', h', same).
            WhenOk-bind (Passes s)
              (read_stripe_next_row stripe.column_count s.projected_columns
                (s.stripe_read_row_count % s.table_footer.block_row_count) loaded.block_data)
              _
              (λ row.
                let (reading, less) = pass_row-Passes loaded stripe row e' h' in
                (reading, omega (arith, less, same)))))

  Passes-weaken :
      (s s' : Scan macros pglz protobuf planner)
      (r : Option (Row macros pglz protobuf planner) × Scan macros pglz protobuf planner)
      → rows_left s' ≤ rows_left s
      → Passes s' r
      → Passes s r
  Passes-weaken s s' (none, t) less p = tt
  Passes-weaken s s' (some row, t) less p = (p.0, omega (arith, p.1, less))

  found-Passes :
      (s s' : Scan macros pglz protobuf planner) (o : Option StripeBuffers)
      → s'.stripe_buffers ≡ o
      → IsReading s'
      → rows_left s' ≤ rows_left s
      → WhenOk
          (Passes s)
          (require o fault >>= (λ stripe. read_row macros pglz protobuf planner s' stripe))
  found-Passes s s' none e reading less = tt
  found-Passes s s' (some stripe) e reading less =
      WhenOk-imp (Passes s') (Passes s) (read_row macros pglz protobuf planner s' stripe)
        (λ r p. Passes-weaken s s' r less p) (read_row-Passes s' stripe e reading)

  read_next_row-Passes :
      (s : Scan macros pglz protobuf planner)
      → IsReading s
      → WhenOk (Passes s) (read_next_row macros pglz protobuf planner s)
  unfolding read_next_row
  read_next_row-Passes s h =
      WhenOk-then (Follows s) (Passes s)
        (ensure_stripe macros pglz protobuf planner s s.stripe_buffers) _
        (ensure_stripe-Follows s h)
        (λ (found, s') (reading, less).
          elim found
            as (λ f. WhenOk (Passes s) (elim f [
              | false ↦ ok (none, s')
              | true ↦ require s'.stripe_buffers fault >>= read_row macros pglz protobuf planner s'
            ])) [ false ↦ tt | true ↦ found-Passes s s' s'.stripe_buffers refl reading less ])

  more-ends :
      (row : Row macros pglz protobuf planner)
      (rest : Option (List (Row macros pglz protobuf planner)))
      → rest ≢ none
      → more macros pglz protobuf planner row rest ≢ none
  more-ends row none ended = absurd (ended refl)
  more-ends row (some rows) ended = λ e. cc

  -- More calls than there are rows left come to an end.
  scan-ends :
      (n : ℕ) (s : Scan macros pglz protobuf planner)
      → IsReading s
      → rows_left s < n
      → WhenOk (λ rows. rows ≢ none) (scan macros pglz protobuf planner n s)
  scan-ends zero s h few = absurd (omega arith)
  scan-ends (suc n) s h few =
      WhenOk-then (Passes s) (λ rows. rows ≢ none) (read_next_row macros pglz protobuf planner s) _
        (read_next_row-Passes s h)
        (λ (found, s') p.
          (elim found
              as (λ f.
                Passes s (f, s')
                → WhenOk (λ rows. rows ≢ none)
                    (elim f [
                      | none ↦ ok (some [])
                      | some row ↦
                          scan macros pglz protobuf planner n s'
                          >>= (λ rest. ok (more macros pglz protobuf planner row rest))
                    ])) [
                      | none ↦ λ p e. cc
                      | some row ↦ λ p.
                          WhenOk-then (λ rows. rows ≢ none) (λ rows. rows ≢ none)
                            (scan macros pglz protobuf planner n s') _
                            (scan-ends n s' p.0 (omega (arith, p.1)))
                            (λ rest ended. more-ends row rest ended)
                    ])
            p)

  -- After `CStoreBeginRead` on a table with less than 2 ^ 32 stripes, whatever the files hold, the
  -- scan ends with false or with an error within one call more than 2 ^ 32 for each stripe.
  pub scan-terminates :
      (d : Disk) (attributes : List Attribute) (defaults : List AttrDefault) (vars : List Var)
      (clauses : List planner.Expr) (s : Scan macros pglz protobuf planner)
      → begin_read macros pglz protobuf planner d attributes defaults vars clauses ≡ ok s
      → length s.table_footer.stripe_metadata_list < 2 ^ 32
      → scan macros pglz protobuf planner
          (2 ^ 32 * length s.table_footer.stripe_metadata_list + 1)
          s
        ≢ ok none
  unfolding begin_read
  scan-terminates d attributes defaults vars clauses s begun few out =
      let (footer, read, next) = >>=-eq-ok (read_footer protobuf d.footer_file) _ begun in
      let (content, opened, next') = >>=-eq-ok (require d.data_file could_not_open) _ next in
      let (mask, marked, last) =
        >>=-eq-ok (projected_column_mask (length attributes) vars) _ next' in
      let result = ok-injective last in
      let idle : s.stripe_buffers ≡ none = subst (λ t. t.stripe_buffers ≡ none) result refl in
      let none_read : s.read_stripe_count ≡ 0 = subst (λ t. t.read_stripe_count ≡ 0) result refl in
      let reading : IsReading s = record {
        in_stripe = subst (λ o. InStripe o s.stripe_read_row_count) (sym idle) tt;
        few = few;
        in_table = omega arith;
      } in
      let ahead : rows_ahead s.stripe_buffers s.stripe_read_row_count ≡ 0 =
        ap (λ o. rows_ahead o s.stripe_read_row_count) idle in
      WhenOk-ok (λ rows. rows ≢ none) _ none
        (scan-ends (2 ^ 32 * length s.table_footer.stripe_metadata_list + 1) s reading
          (omega arith))
        out refl
