-- ===== src/Writer/Flush.antt =====
-- `FlushStripe`, `CreateSkipListBufferArray` and `CreateStripeFooter` (cstore_writer.c). Sizes and
-- offsets are `uint64`s.
use cstore_fdw.Prelude.{ℕ, ◌+◌, ◌/◌, ◌%◌, ◌^◌, List, [], ◌∷◌, map, ltb, if◌then◌else◌, length}
use cstore_fdw.Result.{Result, ok}
use cstore_fdw.Postgres.{TupleMacros}
use cstore_fdw.Compression.{Pglz}
use cstore_fdw.Disk.{Io, lift, pure, write_to_file, ◌>>=◌, ◌>>◌}
use cstore_fdw.Protobuf.{Protobuf}
use cstore_fdw.Types.{StripeMetadata, StripeFooter}
use cstore_fdw.Metadata.{serialize_stripe_footer}
use cstore_fdw.Metadata.SkipList.{serialize_column_skip_list}
use cstore_fdw.Writer.{WriteColumn, Stripe, TableWriteState}
use cstore_fdw.Writer.Column.{for_columns, serialize_block_data}
use cstore_fdw.Writer.Blocks.{add_u64, place_column, sum_sizes, data_chunks}

-- the sum of sizes into a `uint64`, from a value on
unfoldable pub sum_u64 : ℕ → List ℕ → ℕ
sum_u64 total [] = total
sum_u64 total (n ∷ ns) = sum_u64 (add_u64 total n) ns

-- The loop of `FlushStripe` that computes `dataLength`.
unfoldable pub sum_data_length : ℕ → List ℕ → List ℕ → ℕ
sum_data_length total (e ∷ es) (v ∷ vs) = sum_data_length (add_u64 (add_u64 total e) v) es vs
sum_data_length total _ _ = total

-- `WriteToFile` for one buffer after the other; the result is the position behind the last.
unfoldable pub write_chunks : ℕ → List (List ℕ) → Io ℕ
write_chunks position [] = pure position
write_chunks position (chunk ∷ chunks) = do
  write_to_file position chunk
  write_chunks (position + length chunk) chunks

-- The three sections of a stripe; the result is the position behind them.
unfoldable pub write_sections : ℕ → List (List ℕ) → List (List ℕ) → List ℕ → Io ℕ
write_sections position skip_lists buffers footer = do
  behind_skip_lists ← write_chunks position skip_lists
  behind_data ← write_chunks behind_skip_lists buffers
  write_to_file behind_data footer
  pure (behind_data + length footer)

module _ (macros : TupleMacros) (pglz : Pglz) (protobuf : Protobuf) where
  open macros use {Datum}

  unfoldable pub create_skip_list_buffer_array : ℕ → List (WriteColumn Datum) → List (List ℕ)
  create_skip_list_buffer_array block_count columns =
      map
        (λ c.
          serialize_column_skip_list macros protobuf c.skip_nodes block_count c.attribute.attbyval
            c.attribute.attlen)
        columns

  unfoldable pub create_stripe_footer : ℕ → List (WriteColumn Datum) → List (List ℕ) → StripeFooter
  create_stripe_footer block_count columns skip_list_buffers = record {
    column_count = length columns;
    skip_list_sizes = map length skip_list_buffers;
    exists_sizes = map (λ c. sum_sizes (λ n. n.exists_length) 0 block_count c.skip_nodes) columns;
    value_sizes = map (λ c. sum_sizes (λ n. n.value_length) 0 block_count c.skip_nodes) columns;
  }

  -- the last block is serialized if it has rows
  unfoldable pub serialize_last_block :
      TableWriteState Datum → Stripe → Result (List (WriteColumn Datum))
  serialize_last_block w stripe =
      let rows = w.table_footer.block_row_count % 2 ^ 32 in
      if ltb 0 (stripe.row_count % rows)
      then serialize_block_data macros pglz w.compression_type (stripe.row_count / rows)
          (stripe.row_count % rows) w.columns
      else ok w.columns

  unfoldable pub flush_stripe :
      TableWriteState Datum → Stripe → Io (StripeMetadata × TableWriteState Datum)
  flush_stripe w stripe = do
    serialized ← lift (serialize_last_block w stripe)
    columns ← lift (for_columns (place_column stripe.block_count) serialized)
    let skip_lists = create_skip_list_buffer_array stripe.block_count columns
    let footer = create_stripe_footer stripe.block_count columns skip_lists
    let footer_buffer = serialize_stripe_footer protobuf footer
    buffers ← lift (data_chunks stripe.block_count columns)
    position ← write_sections w.position skip_lists buffers footer_buffer
    let skip_list_length = sum_u64 0 footer.skip_list_sizes
    let data_length = sum_data_length 0 footer.exists_sizes footer.value_sizes
    pure (
      record {
        file_offset = w.current_file_offset;
        skip_list_length = skip_list_length;
        data_length = data_length;
        footer_length = length footer_buffer;
      },
      record w {
        position = position;
        columns = columns;
        current_file_offset =
            add_u64 (add_u64 (add_u64 w.current_file_offset skip_list_length) data_length)
              (length footer_buffer);
      },
    )
