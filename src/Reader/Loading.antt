-- ===== src/Reader/Loading.antt =====
-- What the reader takes from the files of a table (cstore_reader.c): `LoadStripeFooter`,
-- `LoadStripeSkipList`, `LoadColumnBuffers`, `LoadFilteredStripeBuffers`, `StripeRowCount` and
-- `CStoreTableRowCount`. Offsets are `uint64`s.
pub mod Located
pub mod Counts
use cstore_fdw.Prelude.{
  ℕ, zero, suc, ◌+◌, ◌%◌, ◌^◌, Bool, true, false, ◌||◌, Option, none, some, List, [], ◌∷◌, map, ltb,
  if◌then◌else◌, get_elem?, length, replicate,
}
use cstore_fdw.Result.{
  Result, ok, err, could_not_open, column_count_mismatch, fault, fail_if, require, ◌>>=◌, ◌>>◌,
}
use cstore_fdw.Postgres.{Attribute, TupleMacros}
use cstore_fdw.Disk.{read_from_file}
use cstore_fdw.Protobuf.{Protobuf}
use cstore_fdw.Types.{StripeMetadata, StripeFooter, ColumnBlockSkipNode, empty_skip_node}
use cstore_fdw.Metadata.{deserialize_stripe_footer}
use cstore_fdw.Metadata.SkipList.{
  deserialize_block_count, deserialize_row_count, deserialize_column_skip_list,
}
use cstore_fdw.FooterFile.Read.{read_footer}
use cstore_fdw.Writer.{ColumnBlockBuffers}
use cstore_fdw.Writer.Blocks.{add_u64}
use cstore_fdw.Writer.Column.{empty_block_buffers}
use cstore_fdw.Reader.{Var, StripeSkipList, StripeBuffers, elements}
use cstore_fdw.Reader.Columns.{projected_column_mask}
use cstore_fdw.Reader.Constraints.{Planner}
use cstore_fdw.Reader.Selection.{
  selected_block_mask, selected_block_skip_list, stripe_skip_list_row_count,
}

-- where the footer of a stripe begins
abbrev pub footer_offset : StripeMetadata → ℕ
footer_offset s = add_u64 (add_u64 (add_u64 0 s.file_offset) s.skip_list_length) s.data_length

module _ {Datum : Type 0} where
  -- The first loop of `LoadColumnBuffers` over the blocks that are left, into empty buffers.
  unfoldable pub load_exists :
      List ℕ → ℕ → ℕ → List (ColumnBlockSkipNode Datum) → Result (List ColumnBlockBuffers)
  load_exists content file_offset zero nodes = ok []
  load_exists content file_offset (suc n) [] = err fault
  load_exists content file_offset (suc n) (node ∷ nodes) = do
    buffer ←
        read_from_file content (add_u64 file_offset node.exists_block_offset) node.exists_length
    rest ← load_exists content file_offset n nodes
    ok (record empty_block_buffers { exists_buffer = some buffer } ∷ rest)

  -- The second loop.
  unfoldable pub load_values :
      List ℕ
      → ℕ
      → List (ColumnBlockSkipNode Datum)
      → List ColumnBlockBuffers
      → Result (List ColumnBlockBuffers)
  load_values content file_offset nodes [] = ok []
  load_values content file_offset [] (b ∷ bs) = err fault
  load_values content file_offset (node ∷ nodes) (b ∷ bs) = do
    buffer ← read_from_file content (add_u64 file_offset node.value_block_offset) node.value_length
    rest ← load_values content file_offset nodes bs
    ok (
        record b {
          value_buffer = some buffer;
          value_compression_type = node.value_compression_type;
        }
        ∷ rest)

  unfoldable pub load_column_buffers :
      List ℕ → List (ColumnBlockSkipNode Datum) → ℕ → ℕ → ℕ → Result (List ColumnBlockBuffers)
  load_column_buffers content nodes block_count exists_offset value_offset = do
    buffers ← load_exists content exists_offset block_count nodes
    load_values content value_offset nodes buffers

  -- The loop of `LoadFilteredStripeBuffers` over the columns of the stripe, from a file offset on.
  -- The mask and the nodes have an entry for each column of the table.
  unfoldable pub load_columns :
      List ℕ
      → ℕ
      → ℕ
      → List ℕ
      → List ℕ
      → List Bool
      → List (Option (List (ColumnBlockSkipNode Datum)))
      → Result (List (Option (List ColumnBlockBuffers)))
  load_columns content block_count offset [] value_sizes projected columns =
      ok (replicate (length projected) none)
  load_columns content block_count offset (e ∷ es) [] projected columns = err fault
  load_columns content block_count offset (e ∷ es) (v ∷ vs) [] columns = err fault
  load_columns content block_count offset (e ∷ es) (v ∷ vs) (p ∷ projected) [] = err fault
  load_columns content block_count offset (e ∷ es) (v ∷ vs) (p ∷ projected) (c ∷ columns) = do
    buffers ←
        if p
        then load_column_buffers content (elements c) block_count offset (add_u64 offset e)
          >>= (λ loaded. ok (some loaded))
        else ok none
    rest ← load_columns content block_count (add_u64 (add_u64 offset e) v) es vs projected columns
    ok (buffers ∷ rest)

module _ (macros : TupleMacros) (protobuf : Protobuf) where
  open macros use {Datum, zero_datum}

  unfoldable pub load_stripe_footer : List ℕ → StripeMetadata → ℕ → Result StripeFooter
  load_stripe_footer content stripe column_count = do
    buffer ← read_from_file content (footer_offset stripe) stripe.footer_length
    footer ← deserialize_stripe_footer protobuf buffer
    fail_if (ltb column_count footer.column_count) column_count_mismatch
    ok footer

  -- The loop over the columns that were added behind those of the stripe.
  unfoldable pub added_skip_lists :
      Bool → ℕ → List Bool → List (Option (List (ColumnBlockSkipNode Datum)))
  added_skip_lists first block_count [] = []
  added_skip_lists first block_count (p ∷ projected) =
      (if p || first then some (replicate block_count (empty_skip_node zero_datum)) else none)
      ∷ added_skip_lists false block_count projected

  -- Both loops over the columns, from a file offset on; `first` says that the first column is next,
  -- and the sizes are those of the columns of the stripe that are left.
  unfoldable pub load_skip_lists :
      List ℕ
      → ℕ
      → Bool
      → ℕ
      → List ℕ
      → List Bool
      → List Attribute
      → Result (List (Option (List (ColumnBlockSkipNode Datum))))
  load_skip_lists content block_count first offset [] projected attributes =
      ok (added_skip_lists first block_count projected)
  load_skip_lists content block_count first offset (size ∷ sizes) [] attributes = err fault
  load_skip_lists content block_count first offset (size ∷ sizes) (p ∷ projected) [] = err fault
  load_skip_lists content block_count first offset (size ∷ sizes) (p ∷ projected) (a ∷ attributes) =
      do
        nodes ←
            if p || first
            then read_from_file content offset size
              >>= (λ buffer.
                  deserialize_column_skip_list macros protobuf buffer a.attbyval a.attlen
                    block_count)
              >>= (λ read. ok (some read))
            else ok none
        rest ←
            load_skip_lists content block_count false (add_u64 offset size) sizes projected
              attributes
        ok (nodes ∷ rest)

  unfoldable pub load_stripe_skip_list :
      List ℕ
      → StripeMetadata
      → StripeFooter
      → List Bool
      → List Attribute
      → Result (StripeSkipList Datum)
  load_stripe_skip_list content stripe footer projected attributes = do
    first_size ← require (get_elem? footer.skip_list_sizes 0) fault
    buffer ← read_from_file content stripe.file_offset first_size
    block_count ← deserialize_block_count macros protobuf buffer
    columns ←
        load_skip_lists content block_count true stripe.file_offset footer.skip_list_sizes projected
          attributes
    ok (record {
      skip_nodes = columns;
      column_count = length attributes;
      block_count = block_count;
    })

  unfoldable pub load_filtered_stripe_buffers :
      (planner : Planner Datum)
      → List ℕ
      → StripeMetadata
      → List Attribute
      → List Var
      → List planner.Expr
      → Result StripeBuffers
  load_filtered_stripe_buffers planner content stripe attributes vars clauses = do
    footer ← load_stripe_footer content stripe (length attributes)
    projected ← projected_column_mask (length attributes) vars
    skip_list ← load_stripe_skip_list content stripe footer projected attributes
    mask ← selected_block_mask planner skip_list vars clauses
    selected ← selected_block_skip_list skip_list projected mask
    buffers ←
        load_columns content selected.block_count
          (add_u64 stripe.file_offset stripe.skip_list_length) footer.exists_sizes
          footer.value_sizes projected selected.skip_nodes
    row_count ← stripe_skip_list_row_count selected
    ok (record {
      column_count = length attributes;
      row_count = row_count;
      column_buffers = buffers;
    })

  -- `StripeRowCount`
  unfoldable pub stripe_row_count : List ℕ → StripeMetadata → Result ℕ
  stripe_row_count content stripe = do
    buffer ← read_from_file content (footer_offset stripe) stripe.footer_length
    footer ← deserialize_stripe_footer protobuf buffer
    first_size ← require (get_elem? footer.skip_list_sizes 0) fault
    first_buffer ← read_from_file content stripe.file_offset first_size
    deserialize_row_count macros protobuf first_buffer

  -- the loop over the stripes
  unfoldable pub add_stripe_row_counts : List ℕ → ℕ → List StripeMetadata → Result ℕ
  add_stripe_row_counts content total [] = ok total
  add_stripe_row_counts content total (s ∷ stripes) = do
    rows ← stripe_row_count content s
    add_stripe_row_counts content (add_u64 total rows) stripes

  -- The files are `none` where they cannot be opened.
  unfoldable pub table_row_count : Option (List ℕ) → Option (List ℕ) → Result ℕ
  table_row_count footer_file data_file = do
    footer ← read_footer protobuf footer_file
    content ← require data_file could_not_open
    add_stripe_row_counts content 0 footer.stripe_metadata_list
