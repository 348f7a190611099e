-- ===== src/Writer/Column.antt =====
-- What a load does to one column: the bodies of the loops of `CStoreWriteRow`,
-- `SerializeBlockData`, `CreateEmptyStripeBuffers` and `CreateEmptyStripeSkipList`
-- (cstore_writer.c), and those loops.
use cstore_fdw.Prelude.{
  ℕ, ◌+◌, ◌/◌, ◌%◌, ◌^◌, Bool, true, false, not, Option, none, some, List, [], ◌∷◌, ltb,
  if◌then◌else◌, length, get_elem?, set, replicate,
}
use cstore_fdw.Result.{Result, ok, err, fault, require, fail_if, ◌>>=◌, ◌>>◌}
use cstore_fdw.Postgres.{TupleMacros}
use cstore_fdw.Compression.{
  CompressionType, compression_none, compression_pg_lz, Pglz, compress_buffer,
}
use cstore_fdw.BoolArray.{serialize_bool_array}
use cstore_fdw.Datum.{serialize_single_datum}
use cstore_fdw.StringInfo.{enlarge_string_info}
use cstore_fdw.SkipNode.{update_block_skip_node_min_max}
use cstore_fdw.Types.{ColumnBlockSkipNode, empty_skip_node}
use cstore_fdw.Writer.{ColumnBlockBuffers, WriteColumn}

-- `array[index] = value`, with a fault where the index is out of bounds
abbrev pub store_at {ℓ} : {A : Type ℓ} → List A → ℕ → A → Result (List A)
store_at array index value = do
  fail_if (not (ltb index (length array))) fault
  ok (set array index value)

-- A loop over the columns whose body may stop it.
abbrev pub for_columns {ℓ κ} : {A : Type ℓ} {B : Type κ} → (A → Result B) → List A → Result (List B)
for_columns body [] = ok []
for_columns body (c ∷ cs) = do c' ← body c; cs' ← for_columns body cs; ok (c' ∷ cs')

abbrev pub empty_block_buffers : ColumnBlockBuffers
empty_block_buffers = record {
  exists_buffer = none;
  value_buffer = none;
  value_compression_type = compression_none;
}

-- `uint32`
abbrev pub max_block_count : ℕ → ℕ → ℕ
max_block_count stripe_max_row_count block_row_count =
    (stripe_max_row_count / block_row_count + 1) % 2 ^ 32

module _ (macros : TupleMacros) (pglz : Pglz) where
  open macros use {Datum, zero_datum}

  -- the column's part of a new stripe
  unfoldable pub start_column : ℕ → ℕ → WriteColumn Datum → WriteColumn Datum
  start_column stripe_max_row_count block_row_count c = record c {
    value_buffer = some [];
    skip_nodes =
        replicate (max_block_count stripe_max_row_count block_row_count)
          (empty_skip_node zero_datum);
    block_buffers =
        replicate (max_block_count stripe_max_row_count block_row_count) empty_block_buffers;
  }

  -- `rowCount` of a node is a `uint64`.
  abbrev count_row : ColumnBlockSkipNode Datum → ColumnBlockSkipNode Datum
  count_row node = record node { row_count = (node.row_count + 1) % 2 ^ 64 }

  -- A cell of a row: `none` where `columnNulls` is set, and the value otherwise.
  unfoldable pub write_cell : ℕ → ℕ → WriteColumn Datum → Option Datum → Result (WriteColumn Datum)
  write_cell block_index block_row_index c none = do
    node ← require (get_elem? c.skip_nodes block_index) fault
    exists ← store_at c.exists_array block_row_index false
    ok (record c {
      exists_array = exists;
      skip_nodes = set c.skip_nodes block_index (count_row node);
    })
  write_cell block_index block_row_index c (some value) = do
    let a = c.attribute
    node ← require (get_elem? c.skip_nodes block_index) fault
    exists ← store_at c.exists_array block_row_index true
    buffer ← require c.value_buffer fault
    let updated =
        update_block_skip_node_min_max macros node value a.attbyval a.attlen a.attcollation
          c.comparison
    values ← serialize_single_datum macros buffer value a.attbyval a.attlen a.attalign
    ok (record c {
      exists_array = exists;
      value_buffer = some values;
      skip_nodes = set c.skip_nodes block_index (count_row updated);
    })

  -- the loop of `CStoreWriteRow` over the columns and the row
  unfoldable pub write_cells :
      ℕ → ℕ → List (WriteColumn Datum) → List (Option Datum) → Result (List (WriteColumn Datum))
  write_cells block_index block_row_index [] row = ok []
  write_cells block_index block_row_index (c ∷ cs) [] = err fault
  write_cells block_index block_row_index (c ∷ cs) (v ∷ row) = do
    c' ← write_cell block_index block_row_index c v
    cs' ← write_cells block_index block_row_index cs row
    ok (c' ∷ cs')

  -- The buffers of one block. `CompressBuffer` empties its scratch buffer before it uses it.
  unfoldable pub block_buffers_of : CompressionType → List Bool → List ℕ → ℕ → ColumnBlockBuffers
  block_buffers_of requested exists values row_count =
      let (compressed, output) = compress_buffer pglz values [] requested in
      record {
        exists_buffer = some (serialize_bool_array exists row_count);
        value_buffer = some (if compressed then output else values);
        value_compression_type = if compressed then compression_pg_lz else compression_none;
      }

  -- `CompressBuffer` makes room for the header and `PGLZ_MAX_OUTPUT` of the values.
  abbrev pub enlarge_compression_buffer : CompressionType → List ℕ → Result (Unit {0})
  enlarge_compression_buffer compression_pg_lz values = enlarge_string_info [] (length values + 12)
  enlarge_compression_buffer _ values = ok tt

  -- one round of both loops of `SerializeBlockData`, which do not depend on one another
  unfoldable pub serialize_block :
      CompressionType → ℕ → ℕ → WriteColumn Datum → Result (WriteColumn Datum)
  serialize_block requested block_index row_count c = do
    values ← require c.value_buffer fault
    enlarge_compression_buffer requested values
    buffers ←
        store_at c.block_buffers block_index
          (block_buffers_of requested c.exists_array values row_count)
    ok (record c { value_buffer = some []; block_buffers = buffers })

  unfoldable pub serialize_block_data :
      CompressionType → ℕ → ℕ → List (WriteColumn Datum) → Result (List (WriteColumn Datum))
  serialize_block_data requested block_index row_count columns =
      for_columns (serialize_block requested block_index row_count) columns
