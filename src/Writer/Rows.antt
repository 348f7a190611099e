-- ===== src/Writer/Rows.antt =====
-- A load from its start to its end (cstore_writer.c): `CStoreBeginWrite`, `CStoreWriteRow`,
-- `CStoreEndWrite` and `AppendStripeMetadata`.
use cstore_fdw.Prelude.{
  ℕ, ◌+◌, ◌-◌, ◌/◌, ◌%◌, ◌^◌, false, Option, none, some, List, [], ◌∷◌, ◌++◌, map, leb, ◌==◌,
  if◌then◌else◌, replicate,
}
use cstore_fdw.Result.{
  Result, ok, err, could_not_open, could_not_seek, could_not_rename, fault, fail_if,
}
use cstore_fdw.Postgres.{Attribute, TupleMacros}
use cstore_fdw.Compression.{CompressionType, Pglz}
use cstore_fdw.SkipNode.{Comparison}
use cstore_fdw.Disk.{Disk, Io, call, lift, pure, ◌>>=◌, ◌>>◌}
use cstore_fdw.Protobuf.{Protobuf}
use cstore_fdw.Types.{StripeMetadata, TableFooter}
use cstore_fdw.FooterFile.Write.{write_footer, sync_and_close_file}
use cstore_fdw.FooterFile.Read.{read_footer}
use cstore_fdw.Writer.{WriteColumn, Stripe, TableWriteState}
use cstore_fdw.Writer.Blocks.{add_u64}
use cstore_fdw.Writer.Column.{start_column, write_cells, serialize_block_data}
use cstore_fdw.Writer.Flush.{flush_stripe}

-- "the position right after the last stripe", or 0; a `uint64`
abbrev pub end_of_stripe : StripeMetadata → ℕ
end_of_stripe s =
    add_u64 s.file_offset
      (add_u64 (add_u64 (add_u64 0 s.skip_list_length) s.data_length) s.footer_length)

unfoldable pub end_of_stripes : List StripeMetadata → ℕ
end_of_stripes [] = 0
end_of_stripes (s ∷ []) = end_of_stripe s
end_of_stripes (s ∷ t ∷ rest) = end_of_stripes (t ∷ rest)

-- The footer to go on from: that of the footer file, or an empty one over an emptied data file.
unfoldable pub open_table : Protobuf → ℕ → Io TableFooter
open_table protobuf block_row_count d = go d.footer_file
  where
    open_existing : Option (List ℕ) → Io TableFooter
    open_existing none = lift (err could_not_open)
    open_existing (some content) = lift (read_footer protobuf d.footer_file)

    go : Option (List ℕ) → Result TableFooter × Disk
    go none =
        (call could_not_open (λ d. record d { data_file = some [] })
            >> pure (record { stripe_metadata_list = []; block_row_count = block_row_count }))
          d
    go (some content) = open_existing d.data_file d

module _ (macros : TupleMacros) (pglz : Pglz) (protobuf : Protobuf) where
  open macros use {Datum}

  -- The comparison function of a column's type; none for a dropped column.
  abbrev pub comparison_for :
      (ℕ → Option (Comparison Datum)) → Attribute → Option (Comparison Datum)
  comparison_for get_function_info a = if a.attisdropped then none else get_function_info a.atttypid

  abbrev pub empty_column : (ℕ → Option (Comparison Datum)) → ℕ → Attribute → WriteColumn Datum
  empty_column get_function_info block_row_count a = record {
    attribute = a;
    comparison = comparison_for get_function_info a;
    exists_array = replicate block_row_count false;
    value_buffer = none;
    skip_nodes = [];
    block_buffers = [];
  }

  -- `stripeMaxRowCount` is stored as a `uint32`; seeking fails beyond the range of `off_t`.
  unfoldable pub begin_write :
      CompressionType
      → ℕ
      → ℕ
      → List Attribute
      → (ℕ → Option (Comparison Datum))
      → Io (TableWriteState Datum)
  begin_write compression stripe_max_row_count block_row_count attributes get_function_info = do
    footer ← open_table protobuf block_row_count
    let offset = end_of_stripes footer.stripe_metadata_list
    lift (fail_if (leb (2 ^ 63) offset) could_not_seek)
    pure (record {
      position = offset;
      table_footer = footer;
      compression_type = compression;
      current_file_offset = offset;
      stripe_max_row_count = stripe_max_row_count % 2 ^ 32;
      columns = map (empty_column get_function_info block_row_count) attributes;
      stripe = none;
    })

  abbrev pub append_stripe_metadata : StripeMetadata → TableWriteState Datum → TableWriteState Datum
  append_stripe_metadata metadata w = record w {
    table_footer = record {
      stripe_metadata_list = w.table_footer.stripe_metadata_list ++ metadata ∷ [];
      block_row_count = w.table_footer.block_row_count;
    };
    stripe = none;
  }

  -- a new stripe, if there is none
  unfoldable pub start_stripe :
      ℕ → TableWriteState Datum → Option Stripe → Stripe × List (WriteColumn Datum)
  start_stripe block_row_count w (some stripe) = (stripe, w.columns)
  start_stripe block_row_count w none = (
    record { row_count = 0; block_count = 0 },
    map (start_column macros pglz w.stripe_max_row_count block_row_count) w.columns,
  )

  -- the block of the row is serialized if the row is its last
  unfoldable pub finish_block :
      ℕ
      → TableWriteState Datum
      → ℕ
      → ℕ
      → List (WriteColumn Datum)
      → Result (List (WriteColumn Datum))
  finish_block block_row_count w block_index block_row_index columns =
      if block_row_index == block_row_count - 1
      then serialize_block_data macros pglz w.compression_type block_index block_row_count columns
      else ok columns

  unfoldable pub flush_and_append : TableWriteState Datum → Stripe → Io (TableWriteState Datum)
  flush_and_append w stripe = do
    (metadata, w') ← flush_stripe macros pglz protobuf w stripe
    pure (append_stripe_metadata metadata w')

  -- the stripe is flushed when it has enough rows
  unfoldable pub finish_stripe : TableWriteState Datum → Stripe → Io (TableWriteState Datum)
  finish_stripe w stripe =
      let flushed = flush_and_append w stripe in
      if leb w.stripe_max_row_count stripe.row_count then flushed else pure w

  -- `const uint32 blockRowCount`; the row counts are `uint32`s.
  unfoldable pub write_row :
      TableWriteState Datum → List (Option Datum) → Io (TableWriteState Datum)
  write_row w row = do
    let block_row_count = w.table_footer.block_row_count % 2 ^ 32
    let (stripe, started) = start_stripe block_row_count w w.stripe
    lift (fail_if (block_row_count == 0) fault)
    let block_index = stripe.row_count / block_row_count
    let block_row_index = stripe.row_count % block_row_count
    written ← lift (write_cells macros pglz block_index block_row_index started row)
    columns ← lift (finish_block block_row_count w block_index block_row_index written)
    let rows = (stripe.row_count + 1) % 2 ^ 32
    let stripe' : Stripe = record { row_count = rows; block_count = block_index + 1 }
    finish_stripe (record w { columns = columns; stripe = some stripe' }) stripe'

  unfoldable pub write_rows :
      TableWriteState Datum → List (List (Option Datum)) → Io (TableWriteState Datum)
  write_rows w [] = pure w
  write_rows w (row ∷ rows) = do w' ← write_row w row; write_rows w' rows

  unfoldable pub flush_rest : TableWriteState Datum → Option Stripe → Io (TableWriteState Datum)
  flush_rest w none = pure w
  flush_rest w (some stripe) = flush_and_append w stripe

  -- `rename` of the temporary footer file
  unfoldable pub commit_footer : Io (Unit {0})
  commit_footer =
      call could_not_rename
        (λ d. record d { footer_file = d.temp_footer_file; temp_footer_file = none })

  unfoldable pub end_write : TableWriteState Datum → Io (Unit {0})
  end_write w = do
    w' ← flush_rest w w.stripe
    sync_and_close_file
    write_footer protobuf w'.table_footer
    commit_footer

  -- `CopyIntoCStoreTable` (cstore_fdw.c) over the rows that `NextCopyFrom` gives
  unfoldable pub load :
      CompressionType
      → ℕ
      → ℕ
      → List Attribute
      → (ℕ → Option (Comparison Datum))
      → List (List (Option Datum))
      → Io (Unit {0})
  load compression stripe_max_row_count block_row_count attributes get_function_info rows = do
    w ← begin_write compression stripe_max_row_count block_row_count attributes get_function_info
    w' ← write_rows w rows
    end_write w'
