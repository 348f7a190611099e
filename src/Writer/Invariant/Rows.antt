-- ===== src/Writer/Invariant/Rows.antt =====
-- The rounds of a load (`CStoreWriteRow`, cstore_writer.c) and the invariant between them.
use cstore_fdw.Prelude.{
  ℕ, ◌/◌, ◌%◌, ◌^◌, ◌<◌, ◌≡◌, refl, sym, ap, ◌∙◌, Option, some, List, [], ◌∷◌, arith, length, All,
  ◌==◌, leb, Bool-cases, inl, inr,
}
use cstore_fdw.Result.{fault, fail_if}
use cstore_fdw.Postgres.{TupleMacros}
use cstore_fdw.Compression.{Pglz}
use cstore_fdw.Disk.{lift}
use cstore_fdw.Disk.Triples.{Triple-bind, Triple-given}
use cstore_fdw.Protobuf.{Protobuf}
use cstore_fdw.Writer.{Stripe, TableWriteState}
use cstore_fdw.Writer.Column.{write_cells, max_block_count}
use cstore_fdw.Writer.Flush.{flush_stripe}
use cstore_fdw.Writer.Rows.{
  start_stripe, finish_block, finish_stripe, flush_and_append, write_row, write_rows,
}
use cstore_fdw.Writer.Invariant.{IsStripe, IsLoad, StripeHolds}
use cstore_fdw.Writer.Invariant.Column.{Succeeds, write_cells-IsColumn}
use cstore_fdw.Writer.Invariant.Stripes.{
  quotient, remainder, in_blocks, sized_of, OnlyWrites, OnlyWrites-lift, OnlyWrites-always,
  flush_stripe-OnlyWrites,
}
use cstore_fdw.Writer.Invariant.Started.{
  start_stripe-IsStarted, finish_block-IsColumn, stripe_with_row,
}

-- The invariant between two rows.
abbrev pub IsBetween : {Datum : Type 0} → ℕ → TableWriteState Datum → Type 0
IsBetween width w = IsLoad width w × StripeHolds w w.stripe

module _ (macros : TupleMacros) (pglz : Pglz) (protobuf : Protobuf) where
  open macros use {Datum}

  flush_and_append-OnlyWrites :
      (width : ℕ) (w : TableWriteState Datum) (stripe : Stripe)
      → IsLoad width w
      → IsStripe w stripe
      → OnlyWrites (flush_and_append macros pglz protobuf w stripe) (IsBetween width)
  unfolding flush_and_append
  flush_and_append-OnlyWrites width w stripe load s =
      Triple-bind (flush_stripe macros pglz protobuf w stripe) _
        (flush_stripe-OnlyWrites macros pglz protobuf width w stripe load s)
        (λ r. Triple-given (λ h. record {
          run = λ d u. (
            (
              record {
                block_min = h.block_min;
                block_max = h.block_max;
                stripe_max = h.stripe_max;
                stripe_min = h.stripe_min;
                exists_sized = h.exists_sized;
                wide = h.wide;
              },
              tt,
            ),
            tt,
          );
        }))

  holds_at :
      (w : TableWriteState Datum) (o : Option Stripe) (stripe : Stripe)
      → o ≡ some stripe
      → IsStripe w stripe
      → stripe.row_count < w.stripe_max_row_count
      → StripeHolds w o
  holds_at w o stripe e s room = rw e (s, room)

  finish_stripe-OnlyWrites :
      (width : ℕ) (w : TableWriteState Datum) (stripe : Stripe)
      → IsLoad width w
      → IsStripe w stripe
      → w.stripe ≡ some stripe
      → OnlyWrites (finish_stripe macros pglz protobuf w stripe) (IsBetween width)
  unfolding finish_stripe
  finish_stripe-OnlyWrites width w stripe load s e =
      elim (Bool-cases (leb w.stripe_max_row_count stripe.row_count)) [
        | inl full ↦ rw full (flush_and_append-OnlyWrites width w stripe load s)
        | inr more ↦
            rw more
              (record { run = λ d u. ((load, holds_at w w.stripe stripe e s (ground arith)), tt) })
      ]

  pub write_row-OnlyWrites :
      (width : ℕ) (w : TableWriteState Datum) (row : List (Option Datum))
      → IsBetween width w
      → length row ≡ width
      → OnlyWrites (write_row macros pglz protobuf w row) (IsBetween width)
  unfolding write_row
  write_row-OnlyWrites width w row (load, holds) wide =
      let B = w.table_footer.block_row_count in
      let blocks = max_block_count w.stripe_max_row_count B in
      let r = B % 2 ^ 32 in
      let same : r ≡ B = omega (arith, load.block_max) in
      let (stripe, started) = start_stripe macros pglz protobuf r w w.stripe in
      let s = start_stripe-IsStarted macros pglz protobuf width r w w.stripe load same holds in
      let q =
        ap (λ n. stripe.row_count / n) same
        ∙ quotient stripe.row_count s.k s.j B s.rows s.partial in
      let m =
        ap (λ n. stripe.row_count % n) same
        ∙ remainder stripe.row_count s.k s.j B s.rows s.partial in
      let fits =
        in_blocks s.k w.stripe_max_row_count B (omega (arith, s.rows, s.room))
          (omega (arith, load.block_min)) load.stripe_max in
      let divides : Succeeds (λ u. Unit {0}) (fail_if (r == 0) fault) =
        ground (arith, load.block_min, same) in
      Triple-bind (lift (fail_if (r == 0) fault)) _ (OnlyWrites-always _ _ divides) (λ _.
        Triple-given (λ _.
          Triple-bind
            (lift
              (write_cells macros pglz (stripe.row_count / r) (stripe.row_count % r) started row))
            _
            (OnlyWrites-lift _ _ (
              write_cells-IsColumn macros pglz B blocks s.k (stripe.row_count / r)
                (stripe.row_count % r) started row s.columns (wide ∙ sym load.wide ∙ sym s.same)
                (omega (arith, q, fits)) (omega (arith, m, s.partial))))
            (λ written. Triple-given (λ h.
              Triple-bind
                (lift (
                  finish_block macros pglz protobuf r w (stripe.row_count / r)
                    (stripe.row_count % r) written))
                _
                (OnlyWrites-lift _ _ (
                  finish_block-IsColumn macros pglz protobuf B blocks s.k s.j r
                    (stripe.row_count / r) (stripe.row_count % r) w written same q m fits h.1))
                (λ columns. Triple-given (λ h'.
                  let after =
                    stripe_with_row macros pglz protobuf w stripe (stripe.row_count / r) started
                      columns s q (omega (arith, s.room, load.stripe_max)) h'.1 in
                  finish_stripe-OnlyWrites width _ _
                    (record {
                      block_min = load.block_min;
                      block_max = load.block_max;
                      stripe_max = load.stripe_max;
                      stripe_min = load.stripe_min;
                      exists_sized = sized_of macros pglz protobuf B blocks _ columns h'.1;
                      wide = h'.0 ∙ h.0 ∙ s.same ∙ load.wide;
                    })
                    after refl))))))

  -- In a load between two rows, taking in any number of rows of the load's width succeeds and leaves
  -- a load between two rows, or fails with an error of writing to the data file or because a string
  -- would reach 1 GB: no array is overrun, no NULL is followed, and every block of a flushed stripe
  -- has been serialized.
  pub write_rows-OnlyWrites :
      (width : ℕ) (w : TableWriteState Datum) (rows : List (List (Option Datum)))
      → IsBetween width w
      → All (λ (row : List (Option Datum)). length row ≡ width) rows
      → OnlyWrites (write_rows macros pglz protobuf w rows) (IsBetween width)
  unfolding write_rows
  write_rows-OnlyWrites width w [] between wide = record { run = λ d u. (between, tt) }
  write_rows-OnlyWrites width w (row ∷ rows) between wide =
      Triple-bind (write_row macros pglz protobuf w row) _
        (write_row-OnlyWrites width w row between wide.0)
        (λ w'. Triple-given (λ h. write_rows-OnlyWrites width w' rows h wide.1))
