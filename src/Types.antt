-- ===== src/Types.antt =====
-- The structures of cstore_fdw.h that describe a file: `StripeMetadata`, `TableFooter`,
-- `ColumnBlockSkipNode` and `StripeFooter`.
use cstore_fdw.Prelude.{ℕ, Bool, false, List}
use cstore_fdw.Compression.{CompressionType, compression_none}

pub record StripeMetadata : Type 0 where
  pub file_offset : ℕ
  pub skip_list_length : ℕ
  pub data_length : ℕ
  pub footer_length : ℕ

pub record TableFooter : Type 0 where
  pub stripe_metadata_list : List StripeMetadata
  pub block_row_count : ℕ

-- `skipListSizeArray`, `existsSizeArray` and `valueSizeArray` have an entry for each column.
pub record StripeFooter : Type 0 where
  pub column_count : ℕ
  pub skip_list_sizes : List ℕ
  pub exists_sizes : List ℕ
  pub value_sizes : List ℕ

pub record ColumnBlockSkipNode (Datum : Type 0) : Type 0 where
  pub has_min_max : Bool
  pub minimum_value : Datum
  pub maximum_value : Datum
  pub row_count : ℕ
  pub value_block_offset : ℕ
  pub value_length : ℕ
  pub exists_block_offset : ℕ
  pub exists_length : ℕ
  pub value_compression_type : CompressionType

-- A node as `palloc0` leaves it, over the Datum 0.
abbrev pub empty_skip_node : {Datum : Type 0} → Datum → ColumnBlockSkipNode Datum
empty_skip_node zero_datum = record {
  has_min_max = false;
  minimum_value = zero_datum;
  maximum_value = zero_datum;
  row_count = 0;
  value_block_offset = 0;
  value_length = 0;
  exists_block_offset = 0;
  exists_length = 0;
  value_compression_type = compression_none;
}
