-- ===== src/Writer/Blocks.antt =====
-- The loops of `FlushStripe` (cstore_writer.c) over the blocks of one column.
pub mod Layout
use cstore_fdw.Prelude.{ℕ, zero, suc, ◌+◌, ◌%◌, ◌^◌, Option, List, [], ◌∷◌, ◌++◌, length}
use cstore_fdw.Result.{Result, ok, err, fault, require, ◌>>=◌}
use cstore_fdw.Types.{ColumnBlockSkipNode}
use cstore_fdw.Writer.{ColumnBlockBuffers, WriteColumn}

-- `uint64` addition
abbrev pub add_u64 : ℕ → ℕ → ℕ
add_u64 a b = (a + b) % 2 ^ 64

module _ {Datum : Type 0} where
  abbrev pub place_node :
      ColumnBlockSkipNode Datum → ColumnBlockBuffers → ℕ → ℕ → ℕ → ℕ → ColumnBlockSkipNode Datum
  place_node node b exists_offset exists_size value_offset value_size = record node {
    exists_block_offset = exists_offset;
    exists_length = exists_size;
    value_block_offset = value_offset;
    value_length = value_size;
    value_compression_type = b.value_compression_type;
  }

  -- "update buffer sizes and positions in stripe skip list": the loop over the blocks that are left
  unfoldable pub place_blocks :
      ℕ
      → ℕ
      → ℕ
      → List (ColumnBlockSkipNode Datum)
      → List ColumnBlockBuffers
      → Result (List (ColumnBlockSkipNode Datum))
  place_blocks zero exists_offset value_offset nodes buffers = ok nodes
  place_blocks (suc n) exists_offset value_offset [] buffers = err fault
  place_blocks (suc n) exists_offset value_offset (node ∷ nodes) [] = err fault
  place_blocks (suc n) exists_offset value_offset (node ∷ nodes) (b ∷ bs) = do
    exists ← require b.exists_buffer fault
    values ← require b.value_buffer fault
    rest ←
        place_blocks n (add_u64 exists_offset (length exists))
          (add_u64 value_offset (length values)) nodes bs
    ok (place_node node b exists_offset (length exists) value_offset (length values) ∷ rest)

  unfoldable pub place_column : ℕ → WriteColumn Datum → Result (WriteColumn Datum)
  place_column block_count c = do
    nodes ← place_blocks block_count 0 0 c.skip_nodes c.block_buffers
    ok (record c { skip_nodes = nodes })

  -- the loop of `CreateStripeFooter` over the blocks of a column, from a sum on
  unfoldable pub sum_sizes :
      (ColumnBlockSkipNode Datum → ℕ) → ℕ → ℕ → List (ColumnBlockSkipNode Datum) → ℕ
  sum_sizes size total zero nodes = total
  sum_sizes size total (suc n) [] = total
  sum_sizes size total (suc n) (node ∷ nodes) = sum_sizes size (add_u64 total (size node)) n nodes

-- A loop that writes one buffer of each block.
unfoldable pub block_chunks :
    (ColumnBlockBuffers → Option (List ℕ)) → ℕ → List ColumnBlockBuffers → Result (List (List ℕ))
block_chunks buffer zero bs = ok []
block_chunks buffer (suc n) [] = err fault
block_chunks buffer (suc n) (b ∷ bs) = do
  chunk ← require (buffer b) fault
  rest ← block_chunks buffer n bs
  ok (chunk ∷ rest)

-- The buffers of a column in the order in which they are written.
unfoldable pub column_chunks : {Datum : Type 0} → ℕ → WriteColumn Datum → Result (List (List ℕ))
column_chunks block_count c = do
  exists ← block_chunks (λ b. b.exists_buffer) block_count c.block_buffers
  values ← block_chunks (λ b. b.value_buffer) block_count c.block_buffers
  ok (exists ++ values)

unfoldable pub data_chunks :
    {Datum : Type 0} → ℕ → List (WriteColumn Datum) → Result (List (List ℕ))
data_chunks block_count [] = ok []
data_chunks block_count (c ∷ cs) = do
  chunks ← column_chunks block_count c
  rest ← data_chunks block_count cs
  ok (chunks ++ rest)
