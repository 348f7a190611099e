-- ===== src/Writer/Invariant/Stripes.antt =====
-- `FlushStripe` (cstore_writer.c) and the invariant of a load.
use cstore_fdw.Prelude.{
  ◌⊎◌, ℕ, suc, ◌+◌, ◌*◌, ◌/◌, ◌%◌, ◌^◌, ◌≤◌, ◌<◌, ◌≡◌, refl, ap, ◌∙◌, true, false, some, List, [],
  ◌∷◌, arith, length, All, ◌==◌, ltb, Bool-cases, inl, inr,
}
use native.Mathlib.Nat.{
  mul-add-div_right, div-eq_of_lt, mul-add-mod_self_right, mod-eq_of_lt, le-div_iff_mul-le,
  div-le_self,
}
use cstore_fdw.Result.{Result, ok, err, could_not_write, string_too_large}
use cstore_fdw.Postgres.{TupleMacros}
use cstore_fdw.Compression.{Pglz}
use cstore_fdw.Disk.{Io, lift, call, write_at, content_of, write_to_file}
use cstore_fdw.Disk.Triples.{Triple, Triple-bind, Triple-call, Triple-given}
use cstore_fdw.Protobuf.{Protobuf}
use cstore_fdw.Writer.{WriteColumn, Stripe, TableWriteState}
use cstore_fdw.Writer.Column.{for_columns, serialize_block, serialize_block_data, max_block_count}
use cstore_fdw.Writer.Blocks.{place_column, data_chunks}
use cstore_fdw.Writer.Flush.{write_chunks, write_sections, serialize_last_block, flush_stripe}
use cstore_fdw.Writer.Invariant.{IsColumn, IsStripe, IsLoad}
use cstore_fdw.Writer.Invariant.Column.{
  Succeeds, Grows, Succeeds-Grows, for_columns-All, for_columns-Grows, serialize_block-IsColumn,
}
use cstore_fdw.Writer.Invariant.Blocks.{place_column-IsColumn, data_chunks-ok}

pub quotient : (r k j B : ℕ) → r ≡ k * B + j → j < B → r / B ≡ k
quotient r k j B e h =
    ap (λ n. n / B) e
    ∙ mul-add-div_right (omega arith) k j
    ∙ ap (λ n. k + n) (div-eq_of_lt h)
    ∙ omega arith

pub remainder : (r k j B : ℕ) → r ≡ k * B + j → j < B → r % B ≡ j
remainder r k j B e h = ap (λ n. n % B) e ∙ mul-add-mod_self_right k B j ∙ mod-eq_of_lt h

-- The block behind the full ones has a place.
pub in_blocks : (k M B : ℕ) → k * B ≤ M → 0 < B → M ≤ 10000000 → k < max_block_count M B
in_blocks k M B h positive small =
    omega (arith, (le-div_iff_mul-le {k = B} {x = k} {y = M} positive).1 h, div-le_self M B)

-- Any write may fail, and a string may reach 1 GB, and nothing else fails.
abbrev pub OnlyWrites : {A : Type 0} → Io A → (A → Type 0) → Type 0
OnlyWrites m P =
    Triple (λ d. Unit {0}) m (λ a d. P a × Unit {0})
      (λ e d. (e ≡ could_not_write) ⊎ (e ≡ string_too_large))

pub OnlyWrites-lift :
    {A : Type 0} (P : A → Type 0) (r : Result A) → Grows P r → OnlyWrites (lift r) P
OnlyWrites-lift P (ok a) h = record { run = λ d u. (h, tt) }
OnlyWrites-lift P (err e) h = record { run = λ d u. inr h }

pub OnlyWrites-always :
    {A : Type 0} (P : A → Type 0) (r : Result A) → Succeeds P r → OnlyWrites (lift r) P
OnlyWrites-always P r h = OnlyWrites-lift P r (Succeeds-Grows P r h)

OnlyWrites-write :
    (position : ℕ) (bytes : List ℕ) → OnlyWrites (write_to_file position bytes) (λ _. Unit {0})
unfolding write_to_file call
OnlyWrites-write position [] = record { run = λ d u. (tt, tt) }
OnlyWrites-write position (b ∷ bytes) =
    Triple-call _
      (λ d. record d { data_file = some (write_at (content_of d.data_file) position (b ∷ bytes)) })
      (λ d u. inl refl) (λ d credit u. (tt, tt))

OnlyWrites-chunks :
    (position : ℕ) (chunks : List (List ℕ))
    → OnlyWrites (write_chunks position chunks) (λ _. Unit {0})
unfolding write_chunks
OnlyWrites-chunks position [] = record { run = λ d u. (tt, tt) }
OnlyWrites-chunks position (chunk ∷ chunks) =
    Triple-bind (write_to_file position chunk) _ (OnlyWrites-write position chunk)
      (λ _. Triple-given (λ _. OnlyWrites-chunks (position + length chunk) chunks))

pub OnlyWrites-sections :
    (position : ℕ) (skip_lists buffers : List (List ℕ)) (footer : List ℕ)
    → OnlyWrites (write_sections position skip_lists buffers footer) (λ _. Unit {0})
unfolding write_sections
OnlyWrites-sections position skip_lists buffers footer =
    Triple-bind (write_chunks position skip_lists) _ (OnlyWrites-chunks position skip_lists)
      (λ behind. Triple-given (λ _.
        Triple-bind (write_chunks behind buffers) _ (OnlyWrites-chunks behind buffers) (λ after.
          Triple-given (λ _.
            Triple-bind (write_to_file after footer) _ (OnlyWrites-write after footer)
              (λ _. record { run = λ d u. (tt, tt) })))))

module _ (macros : TupleMacros) (pglz : Pglz) (protobuf : Protobuf) where
  open macros use {Datum}

  room_of :
      (width : ℕ) (w : TableWriteState Datum) (stripe : Stripe)
      → IsLoad width w
      → (s : IsStripe w stripe)
      → s.k < max_block_count w.stripe_max_row_count w.table_footer.block_row_count
  room_of width w stripe load s =
      in_blocks s.k w.stripe_max_row_count w.table_footer.block_row_count
        (omega (arith, s.rows, s.fits)) (omega (arith, load.block_min)) load.stripe_max

  count_of :
      (width : ℕ) (w : TableWriteState Datum) (stripe : Stripe)
      → IsLoad width w
      → IsStripe w stripe
      → stripe.block_count ≤ max_block_count w.stripe_max_row_count w.table_footer.block_row_count
  count_of width w stripe load s = ground (arith, room_of width w stripe load s, s.counted)

  pub sized_of :
      (rows blocks k : ℕ) (cs : List (WriteColumn Datum))
      → All (IsColumn rows blocks k) cs
      → All (λ (c : WriteColumn Datum). length c.exists_array ≡ rows) cs
  sized_of rows blocks k [] h = tt
  sized_of rows blocks k (c ∷ cs) h = (h.0.exists_sized, sized_of rows blocks k cs h.1)

  -- The last block is serialized where it has rows, and then every block is full.
  serialize_last_block-IsColumn :
      (width : ℕ) (w : TableWriteState Datum) (stripe : Stripe)
      → IsLoad width w
      → (s : IsStripe w stripe)
      → Grows
          (λ cs.
            (length cs ≡ length w.columns)
            × All
                (IsColumn w.table_footer.block_row_count
                  (max_block_count w.stripe_max_row_count w.table_footer.block_row_count)
                  stripe.block_count)
                cs)
          (serialize_last_block macros pglz protobuf w stripe)
  unfolding serialize_last_block serialize_block_data
  serialize_last_block-IsColumn width w stripe load s =
      let B = w.table_footer.block_row_count in
      let blocks = max_block_count w.stripe_max_row_count B in
      let same : B % 2 ^ 32 ≡ B = omega (arith, load.block_max) in
      let q = quotient stripe.row_count s.k s.j B s.rows s.partial in
      let m = remainder stripe.row_count s.k s.j B s.rows s.partial in
      elim (Bool-cases (s.j == 0)) [
        | inl e ↦
            let nothing : ltb 0 s.j ≡ false = ground arith in
            rw (same, m, nothing, s.counted, e) (refl, s.columns)
        | inr e ↦
            let something : ltb 0 s.j ≡ true = ground arith in
            rw (same, m, q, something, s.counted, e)
              (for_columns-Grows (IsColumn B blocks s.k) (IsColumn B blocks (suc s.k))
                (serialize_block macros pglz w.compression_type s.k s.j) w.columns
                (λ c h.
                  serialize_block-IsColumn macros pglz B blocks s.k w.compression_type s.j c h
                    (room_of width w stripe load s))
                s.columns)
      ]

  -- Flushing a stripe leaves the columns with their arrays.
  pub flush_stripe-OnlyWrites :
      (width : ℕ) (w : TableWriteState Datum) (stripe : Stripe)
      → IsLoad width w
      → IsStripe w stripe
      → OnlyWrites (flush_stripe macros pglz protobuf w stripe) (λ r. IsLoad width r.1)
  unfolding flush_stripe
  flush_stripe-OnlyWrites width w stripe load s =
      let B = w.table_footer.block_row_count in
      let blocks = max_block_count w.stripe_max_row_count B in
      let full = IsColumn {Datum = Datum} B blocks stripe.block_count in
      Triple-bind (lift (serialize_last_block macros pglz protobuf w stripe)) _
        (OnlyWrites-lift _ _ (serialize_last_block-IsColumn width w stripe load s))
        (λ serialized. Triple-given (λ h.
          Triple-bind (lift (for_columns (place_column stripe.block_count) serialized)) _
            (OnlyWrites-always _ _ (
              (for_columns-All full full (place_column stripe.block_count) serialized
                (λ c full_column.
                  place_column-IsColumn B blocks stripe.block_count c full_column
                    (count_of width w stripe load s))
                h.1)))
            (λ columns. Triple-given (λ h'.
              Triple-bind (lift (data_chunks stripe.block_count columns)) _
                (OnlyWrites-always _ _ (data_chunks-ok B blocks stripe.block_count columns h'.1))
                (λ buffers. Triple-given (λ _.
                  Triple-bind (write_sections w.position _ buffers _) _
                    (OnlyWrites-sections w.position _ buffers _)
                    (λ position. record {
                      run = λ d u. (
                        record {
                          block_min = load.block_min;
                          block_max = load.block_max;
                          stripe_max = load.stripe_max;
                          stripe_min = load.stripe_min;
                          exists_sized = sized_of B blocks stripe.block_count columns h'.1;
                          wide = h'.0 ∙ h.0 ∙ load.wide;
                        },
                        tt,
                      );
                    })))))))
