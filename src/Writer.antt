-- ===== src/Writer.antt =====
-- A load in progress (cstore_writer.c). The arrays that the program indexes by column
-- (`comparisonFunctionArray`, `blockDataArray`, `blockSkipNodeArray`, `columnBuffersArray` and the
-- attributes of the tuple descriptor) are one list of records, one for each column.
pub mod Column
pub mod Blocks
pub mod Flush
pub mod Rows
pub mod Safety
pub mod Invariant
pub mod Commit
use cstore_fdw.Prelude.{ℕ, Bool, Option, List}
use cstore_fdw.Postgres.{Attribute, TupleMacros}
use cstore_fdw.Compression.{CompressionType}
use cstore_fdw.SkipNode.{Comparison}
use cstore_fdw.Types.{TableFooter, ColumnBlockSkipNode}

-- `ColumnBlockBuffers`; a buffer is `none` for NULL.
pub record ColumnBlockBuffers : Type 0 where
  pub exists_buffer : Option (List ℕ)
  pub value_buffer : Option (List ℕ)
  pub value_compression_type : CompressionType

-- The column's attribute and comparison function, its `ColumnBlockData` (of which a load uses
-- `existsArray` and `valueBuffer`), and its rows of the skip list and of the buffers.
pub record WriteColumn (Datum : Type 0) : Type 0 where
  pub attribute : Attribute
  pub comparison : Option (Comparison Datum)
  pub exists_array : List Bool
  pub value_buffer : Option (List ℕ)
  pub skip_nodes : List (ColumnBlockSkipNode Datum)
  pub block_buffers : List ColumnBlockBuffers

-- `rowCount` of the stripe buffers and `blockCount` of the skip list
pub record Stripe : Type 0 where
  pub row_count : ℕ
  pub block_count : ℕ

-- `TableWriteState`. `stripe` is `none` while `stripeBuffers` and `stripeSkipList` are NULL; the
-- data file's handle stands at `position`.
pub record TableWriteState (Datum : Type 0) : Type 0 where
  pub position : ℕ
  pub table_footer : TableFooter
  pub compression_type : CompressionType
  pub current_file_offset : ℕ
  pub stripe_max_row_count : ℕ
  pub columns : List (WriteColumn Datum)
  pub stripe : Option Stripe
