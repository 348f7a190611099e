-- ===== src/Writer/Invariant.antt =====
-- What holds of a load between its rows: the arrays of every column have their sizes, and the blocks
-- of the stripe that are full have been serialized.
pub mod Column
pub mod Blocks
pub mod Stripes
pub mod Started
pub mod Rows
pub mod Begin
pub mod Overrun
use cstore_fdw.Prelude.{
  ℕ, zero, suc, ◌+◌, ◌*◌, ◌≤◌, ◌<◌, ◌≡◌, Bool, true, false, Option, none, some, List, [], ◌∷◌,
  length, All, ◌==◌, if◌then◌else◌,
}
use cstore_fdw.Writer.{ColumnBlockBuffers, WriteColumn, Stripe, TableWriteState}
use cstore_fdw.Writer.Column.{max_block_count}

abbrev pub is_set {ℓ} : {A : Type ℓ} → Option A → Bool
is_set none = false
is_set (some a) = true

abbrev pub IsFull : ColumnBlockBuffers → Type 0
IsFull b = (is_set b.exists_buffer ≡ true) × (is_set b.value_buffer ≡ true)

-- The first `k` blocks are full.
abbrev pub Filled : ℕ → List ColumnBlockBuffers → Type 0
Filled zero bs = Unit {0}
Filled (suc k) [] = ⊥
Filled (suc k) (b ∷ bs) = IsFull b × Filled k bs

-- A column of a stripe with `k` full blocks of `rows` rows, and room for `blocks` of them.
pub record IsColumn {Datum : Type 0} (rows blocks k : ℕ) (c : WriteColumn Datum) : Type 0 where
  pub exists_sized : length c.exists_array ≡ rows
  pub has_buffer : is_set c.value_buffer ≡ true
  pub nodes_sized : length c.skip_nodes ≡ blocks
  pub buffers_sized : length c.block_buffers ≡ blocks
  pub filled : Filled k c.block_buffers

-- A stripe of a load whose rows are `k` full blocks and `j` rows of the next, which no block of a
-- full size has yet.
pub record IsStripe {Datum : Type 0} (w : TableWriteState Datum) (stripe : Stripe) : Type 0 where
  pub k : ℕ
  pub j : ℕ
  pub rows : stripe.row_count ≡ k * w.table_footer.block_row_count + j
  pub partial : j < w.table_footer.block_row_count
  pub fits : stripe.row_count ≤ w.stripe_max_row_count
  pub counted : stripe.block_count ≡ (if j == 0 then k else suc k)
  pub columns :
      All
        (IsColumn w.table_footer.block_row_count
          (max_block_count w.stripe_max_row_count w.table_footer.block_row_count)
          k)
        w.columns

abbrev pub StripeHolds : {Datum : Type 0} → TableWriteState Datum → Option Stripe → Type 0
StripeHolds w none = Unit {0}
StripeHolds w (some stripe) = IsStripe w stripe × (stripe.row_count < w.stripe_max_row_count)

-- Between two rows of a load of `width` columns, with row counts as the options allow them.
pub record IsLoad {Datum : Type 0} (width : ℕ) (w : TableWriteState Datum) : Type 0 where
  pub block_min : 1000 ≤ w.table_footer.block_row_count
  pub block_max : w.table_footer.block_row_count ≤ 100000
  pub stripe_max : w.stripe_max_row_count ≤ 10000000
  pub stripe_min : 1000 ≤ w.stripe_max_row_count
  pub exists_sized :
      All
        (λ (c : WriteColumn Datum). length c.exists_array ≡ w.table_footer.block_row_count)
        w.columns
  pub wide : length w.columns ≡ width
