-- ===== src/Reader/Columns.antt =====
-- Arrays with an entry for each column (cstore_reader.c): `ProjectedColumnMask`,
-- `CreateEmptyBlockDataArray`, `ResetUncompressedBlockData` and `ReadStripeNextRow`.
use cstore_fdw.Prelude.{
  ℕ, Bool, true, false, Option, none, some, List, [], ◌∷◌, map, if◌then◌else◌, get_elem?, replicate,
}
use cstore_fdw.Result.{Result, ok, fault, require, ◌>>=◌}
use cstore_fdw.Postgres.{TupleMacros}
use cstore_fdw.Writer.Column.{store_at}
use cstore_fdw.Reader.{Var, column_index, BlockData}

-- the loop over the projected columns
unfoldable pub mark_columns : List Var → List Bool → Result (List Bool)
mark_columns [] mask = ok mask
mark_columns (v ∷ vs) mask = do mask' ← store_at mask (column_index v) true; mark_columns vs mask'

unfoldable pub projected_column_mask : ℕ → List Var → Result (List Bool)
projected_column_mask column_count vars = mark_columns vars (replicate column_count false)

module _ (macros : TupleMacros) where
  open macros use {Datum, zero_datum}

  abbrev pub empty_block_data : ℕ → BlockData Datum
  empty_block_data block_row_count = record {
    exists_array = replicate block_row_count false;
    value_array = replicate block_row_count zero_datum;
    value_buffer = none;
  }

  -- The mask has an entry for each column.
  unfoldable pub create_empty_block_data_array : List Bool → ℕ → List (Option (BlockData Datum))
  create_empty_block_data_array mask block_row_count =
      map (λ m. if m then some (empty_block_data block_row_count) else none) mask

abbrev pub reset_value_buffer :
    {Datum : Type 0} → Option (BlockData Datum) → Option (BlockData Datum)
reset_value_buffer none = none
reset_value_buffer (some d) = some (record d { value_buffer = some [] })

-- The array has as many columns as the stripe buffers.
unfoldable pub reset_uncompressed_block_data :
    {Datum : Type 0} → List (Option (BlockData Datum)) → List (Option (BlockData Datum))
reset_uncompressed_block_data block_data = map reset_value_buffer block_data

-- The part for a value that is present.
abbrev pub place_cell :
    {Datum : Type 0} → Bool → Option Datum → ℕ → List (Option Datum) → Result (List (Option Datum))
place_cell false value index row = ok row
place_cell true value index row = do datum ← require value fault; store_at row index (some datum)

-- The loop over the projected columns. The row's cell is `none` where `columnNulls` is set.
unfoldable pub read_cells :
    {Datum : Type 0}
    → List Var
    → ℕ
    → List (Option (BlockData Datum))
    → List (Option Datum)
    → Result (List (Option Datum))
read_cells [] block_row_index block_data row = ok row
read_cells (v ∷ vs) block_row_index block_data row = do
  pointer ← require (get_elem? block_data (column_index v)) fault
  column ← require pointer fault
  present ← require (get_elem? column.exists_array block_row_index) fault
  row' ← place_cell present (get_elem? column.value_array block_row_index) (column_index v) row
  read_cells vs block_row_index block_data row'

unfoldable pub read_stripe_next_row :
    {Datum : Type 0}
    → ℕ
    → List Var
    → ℕ
    → List (Option (BlockData Datum))
    → Result (List (Option Datum))
read_stripe_next_row column_count vars block_row_index block_data =
    read_cells vars block_row_index block_data (replicate column_count none)
