-- ===== src/Reader/Rows/Reference.antt =====
-- What a scan reads, without its state: a loop over the stripes, in it a loop over the blocks, and
-- in it a loop over the rows.
use cstore_fdw.Prelude.{
  ℕ, zero, suc, ◌+◌, ◌/◌, ◌%◌, Option, none, some, List, [], ◌∷◌, ◌++◌, ◌==◌, if◌then◌else◌,
}
use cstore_fdw.Result.{Result, ok, ◌>>=◌}
use cstore_fdw.Postgres.{TupleMacros}
use cstore_fdw.Compression.{Pglz}
use cstore_fdw.Protobuf.{Protobuf}
use cstore_fdw.Types.{StripeMetadata}
use cstore_fdw.Reader.{BlockData, StripeBuffers}
use cstore_fdw.Reader.Columns.{reset_uncompressed_block_data, read_stripe_next_row}
use cstore_fdw.Reader.Constraints.{Planner}
use cstore_fdw.Reader.Loading.{load_filtered_stripe_buffers}
use cstore_fdw.Reader.Blocks.{deserialize_block_data}
use cstore_fdw.Reader.Rows.{State, read_next_row}

module _ (macros : TupleMacros) (pglz : Pglz) (protobuf : Protobuf)
    (planner : Planner macros.Datum) where
  open macros use {Datum}

  abbrev pub Row : Type 0
  Row = List (Option Datum)

  abbrev pub Arrays : Type 0
  Arrays = List (Option (BlockData Datum))

  abbrev pub Scan : Type 0
  Scan = State macros pglz protobuf planner

  abbrev pub more : Row → Option (List Row) → Option (List Row)
  more row none = none
  more row (some rest) = some (row ∷ rest)

  -- The caller's loop: rows are read until there is none, for at most so many calls.
  abbrev pub scan : ℕ → Scan → Result (Option (List Row))
  scan zero s = ok none
  scan (suc n) s = do
    (found, s') ← read_next_row macros pglz protobuf planner s
    elim found [ none ↦ ok (some []) | some row ↦ scan n s' >>= (λ rest. ok (more row rest)) ]

  module _ (s : Scan) where
    -- `n` rows of a block from a row on
    abbrev pub block_rows : StripeBuffers → ℕ → ℕ → Arrays → Result (List Row)
    block_rows stripe zero index arrays = ok []
    block_rows stripe (suc n) index arrays = do
      row ← read_stripe_next_row stripe.column_count s.projected_columns index arrays
      rest ← block_rows stripe n (index + 1) arrays
      ok (row ∷ rest)

    -- A block of `n` rows.
    abbrev pub whole_block : StripeBuffers → ℕ → ℕ → Arrays → Result (List Row × Arrays)
    whole_block stripe block n arrays = do
      loaded ←
          deserialize_block_data macros pglz planner stripe block n arrays s.attributes s.defaults
      rows ← block_rows stripe n 0 loaded
      ok (rows, loaded)

    -- The rows behind the full blocks are a last block, if there are any.
    abbrev pub last_block : StripeBuffers → ℕ → ℕ → Arrays → Result (List Row × Arrays)
    last_block stripe block zero arrays = ok ([], arrays)
    last_block stripe block (suc n) arrays = whole_block stripe block (suc n) arrays

    -- So many full blocks from a block on, and the last block.
    abbrev pub stripe_rows : StripeBuffers → ℕ → ℕ → Arrays → Result (List Row × Arrays)
    stripe_rows stripe zero block arrays =
        last_block stripe block (stripe.row_count % s.table_footer.block_row_count) arrays
    stripe_rows stripe (suc m) block arrays = do
      (rows, arrays') ← whole_block stripe block s.table_footer.block_row_count arrays
      (rest, last) ← stripe_rows stripe m (block + 1) arrays'
      ok (rows ++ rest, last)

    abbrev pub table_rows : List StripeMetadata → Arrays → Result (List Row)
    table_rows [] arrays = ok []
    table_rows (m ∷ stripes) arrays = do
      stripe ←
          load_filtered_stripe_buffers macros protobuf planner s.table_file m s.attributes
            s.projected_columns s.where_clauses
      if stripe.row_count == 0
          then table_rows stripes arrays
          else (stripe_rows stripe (stripe.row_count / s.table_footer.block_row_count) 0
                (reset_uncompressed_block_data arrays)
              >>= (λ (rows, arrays'). table_rows stripes arrays' >>= (λ rest. ok (rows ++ rest))))
