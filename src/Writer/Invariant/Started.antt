-- ===== src/Writer/Invariant/Started.antt =====
-- The steps of `CStoreWriteRow` (cstore_writer.c) before the stripe may be flushed.
use cstore_fdw.Prelude.{
  ℕ, suc, ◌+◌, ◌-◌, ◌*◌, ◌%◌, ◌^◌, ◌<◌, ◌≡◌, refl, Option, none, some, List, [], ◌∷◌, arith, length,
  map, All, ◌==◌, if◌then◌else◌, Bool-cases, ==_iff, inl, inr, length-map, length-replicate,
}
use cstore_fdw.Postgres.{TupleMacros}
use cstore_fdw.Compression.{Pglz}
use cstore_fdw.Protobuf.{Protobuf}
use cstore_fdw.Writer.{WriteColumn, Stripe, TableWriteState}
use cstore_fdw.Writer.Column.{start_column, serialize_block, serialize_block_data, max_block_count}
use cstore_fdw.Writer.Rows.{start_stripe, finish_block}
use cstore_fdw.Writer.Invariant.{IsColumn, IsStripe, IsLoad, StripeHolds}
use cstore_fdw.Writer.Invariant.Column.{Grows, for_columns-Grows, serialize_block-IsColumn}

module _ (macros : TupleMacros) (pglz : Pglz) (protobuf : Protobuf) where
  open macros use {Datum}

  start_columns :
      (M B r : ℕ) (cs : List (WriteColumn Datum))
      → r ≡ B
      → All (λ (c : WriteColumn Datum). length c.exists_array ≡ B) cs
      → All (IsColumn B (max_block_count M B) 0) (map (start_column macros pglz M r) cs)
  unfolding start_column
  start_columns M B r [] e h = tt
  start_columns M B r (c ∷ cs) e h = (
    rw e (record {
      exists_sized = h.0;
      has_buffer = refl;
      nodes_sized = length-replicate (max_block_count M B) _;
      buffers_sized = length-replicate (max_block_count M B) _;
      filled = tt;
    }),
    start_columns M B r cs e h.1,
  )

  -- A stripe that takes another row.
  pub record IsStarted (w : TableWriteState Datum) (stripe : Stripe) (cs : List (WriteColumn Datum))
      : Type 0 where
    pub k : ℕ
    pub j : ℕ
    pub rows : stripe.row_count ≡ k * w.table_footer.block_row_count + j
    pub partial : j < w.table_footer.block_row_count
    pub room : stripe.row_count < w.stripe_max_row_count
    pub same : length cs ≡ length w.columns
    pub columns :
        All
          (IsColumn w.table_footer.block_row_count
            (max_block_count w.stripe_max_row_count w.table_footer.block_row_count)
            k)
          cs

  pub start_stripe-IsStarted :
      (width r : ℕ) (w : TableWriteState Datum) (o : Option Stripe)
      → IsLoad width w
      → r ≡ w.table_footer.block_row_count
      → StripeHolds w o
      → let (stripe, cs) = start_stripe macros pglz protobuf r w o in IsStarted w stripe cs
  unfolding start_stripe
  start_stripe-IsStarted width r w none load e h = record {
    k = 0;
    j = 0;
    rows = omega arith;
    partial = omega (arith, load.block_min);
    room = omega (arith, load.stripe_min);
    same = length-map _ w.columns;
    columns =
        start_columns w.stripe_max_row_count w.table_footer.block_row_count r w.columns e
          load.exists_sized;
  }
  start_stripe-IsStarted width r w (some stripe) load e (s, room) = record {
    k = s.k;
    j = s.j;
    rows = s.rows;
    partial = s.partial;
    room = room;
    same = refl;
    columns = s.columns;
  }

  pub finish_block-IsColumn :
      (B blocks k j r q m : ℕ) (w : TableWriteState Datum) (cs : List (WriteColumn Datum))
      → r ≡ B
      → q ≡ k
      → m ≡ j
      → k < blocks
      → All (IsColumn B blocks k) cs
      → Grows
          (λ cs'.
            (length cs' ≡ length cs)
            × All (IsColumn B blocks (if j == B - 1 then suc k else k)) cs')
          (finish_block macros pglz protobuf r w q m cs)
  unfolding finish_block serialize_block_data
  finish_block-IsColumn B blocks k j r q m w cs er eq em room h = elim (Bool-cases (j == B - 1)) [
    | inl last ↦
        rw (er, eq, em, last)
          (for_columns-Grows (IsColumn B blocks k) (IsColumn B blocks (suc k))
            (serialize_block macros pglz w.compression_type k B) cs
            (λ c hc. serialize_block-IsColumn macros pglz B blocks k w.compression_type B c hc room)
            h)
    | inr other ↦ rw (er, eq, em, other) (refl, h)
  ]

  -- What a row leaves of the stripe it is put into.
  pub stripe_with_row :
      (w : TableWriteState Datum) (stripe : Stripe) (q : ℕ) (started cs : List (WriteColumn Datum))
      → (s : IsStarted w stripe started) → q ≡ s.k
      → stripe.row_count < 2 ^ 32 - 1
      → All
          (IsColumn w.table_footer.block_row_count
            (max_block_count w.stripe_max_row_count w.table_footer.block_row_count)
            (if s.j == w.table_footer.block_row_count - 1 then suc s.k else s.k))
          cs
      → let stripe' : Stripe = record {
        row_count = (stripe.row_count + 1) % 2 ^ 32;
        block_count = q + 1;
      } in
        IsStripe (record w { columns = cs; stripe = some stripe' }) stripe'
  stripe_with_row w stripe q started cs s eq small h =
      elim (Bool-cases (s.j == w.table_footer.block_row_count - 1)) [
        | inl last ↦ record {
          k = suc s.k;
          j = 0;
          rows = omega (arith, s.rows, (==_iff s.j (w.table_footer.block_row_count - 1)).0 last);
          partial = omega (arith, s.partial);
          fits = omega (arith, s.room);
          counted = omega arith;
          columns = rw last at h;
        }
        | inr other ↦ record {
          k = s.k;
          j = suc s.j;
          rows = omega (arith, s.rows);
          partial = ground (arith, s.partial);
          fits = omega (arith, s.room);
          counted = ground arith;
          columns = rw other at h;
        }
      ]
