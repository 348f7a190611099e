-- ===== src/Tests/Scan.antt =====
-- The theorems on blocks and scans, at concrete inputs: a table that a load wrote is read.
use cstore_fdw.Prelude.{
  ◌≢◌, ◌^◌, ◌*◌, ◌+◌, length, true, ℕ, ◌≡◌, refl, true, false, Option, none, some, List, [], ◌∷◌,
  arith, replicate, take,
}
use cstore_fdw.Result.{ok}
use cstore_fdw.Types.{empty_skip_node}
use cstore_fdw.Compression.{compression_none, compression_pg_lz}
use cstore_fdw.Disk.{Disk, content_of}
use cstore_fdw.Writer.{WriteColumn}
use cstore_fdw.Writer.Column.{empty_block_buffers}
use cstore_fdw.Writer.Invariant.Column.{Succeeds}
use cstore_fdw.Reader.{Var, BlockData, AttrDefault}
use cstore_fdw.Reader.Blocks.RoundTrip.{cells_of, write_and_read, write_and_read-eq}
use cstore_fdw.Reader.Rows.{begin_read, no_block}
use cstore_fdw.Reader.Columns.{create_empty_block_data_array}
use cstore_fdw.Reader.Rows.Reference.{Scan, scan, table_rows}
use cstore_fdw.Reader.Rows.Refine.{scan-begin_read}
use cstore_fdw.Reader.Rows.Terminates.{scan-terminates}
use cstore_fdw.Reader.Blocks.{fill, fill_added}
use cstore_fdw.Reader.Constraints.{Planner}
use cstore_fdw.Postgres.{Attribute}
use cstore_fdw.Reader.Rows.Stripe.{Reads}
use cstore_fdw.Tests.Parameters.{macros, laws, pglz, pglz_laws, protobuf}
use cstore_fdw.Tests.Planner.{planner}
use cstore_fdw.Tests.Formats.{text_column}

abbrev fresh_column : WriteColumn (List ℕ)
fresh_column = record {
  attribute = text_column;
  comparison = none;
  exists_array = replicate 4 false;
  value_buffer = some [];
  skip_nodes = replicate 2 (empty_skip_node []);
  block_buffers = replicate 2 empty_block_buffers;
}

abbrev arrays : BlockData (List ℕ)
arrays = record {
  exists_array = replicate 4 true;
  value_array = replicate 4 [];
  value_buffer = some [];
}

abbrev cells : List (Option (List ℕ))
cells = some (2 ∷ 5 ∷ []) ∷ none ∷ some (3 ∷ 9 ∷ 1 ∷ []) ∷ []

block_example :
    Succeeds
      (λ d. take 3 (cells_of d.exists_array d.value_array) ≡ cells)
      (write_and_read macros laws pglz pglz_laws planner compression_pg_lz 1 fresh_column cells
        arrays)
unfolding cstore_fdw.Datum.append_datum
block_example =
    write_and_read-eq macros laws pglz pglz_laws planner compression_pg_lz 1 fresh_column cells
      arrays [] refl (omega arith) (omega arith) (omega arith)
      ((refl, omega arith, omega arith), (tt, ((refl, omega arith, omega arith), tt))) (omega arith)
      (omega arith) (omega arith) (omega arith) refl

-- The files that a load of the rows `(2 7)` and `(null)` leaves.
abbrev written : Disk
written = record {
  data_file = some (
      1 ∷ 1 ∷ 2 ∷ 1 ∷ 0 ∷ 1 ∷ 4 ∷ 1 ∷ 0 ∷ 1 ∷ 1 ∷ 1 ∷ 0 ∷ 0 ∷ 0 ∷ 0 ∷ 1 ∷ 2 ∷ 7 ∷ 0 ∷ 0 ∷ 1 ∷ 16 ∷ 1
      ∷ 1 ∷ 1 ∷ 4 ∷ []);
  footer_file = some (
      1 ∷ 1 ∷ 0 ∷ 1 ∷ 16 ∷ 1 ∷ 5 ∷ 1 ∷ 6 ∷ 1 ∷ 1000 ∷ 1 ∷ 11 ∷ 1 ∷ 1 ∷ 1 ∷ 7 ∷ 1 ∷ 12 ∷ 99 ∷ 105
      ∷ 116 ∷ 117 ∷ 115 ∷ 95 ∷ 99 ∷ 115 ∷ 116 ∷ 111 ∷ 114 ∷ 101 ∷ 20 ∷ []);
  temp_footer_file = none;
  credit = 0;
}

abbrev text_var : Var
text_var = record { varattno = 1; vartype = 25; vartypmod = 0; varcollid = 0 }

abbrev started : Scan macros pglz protobuf planner
started = record {
  table_file = content_of written.data_file;
  table_footer = record {
    stripe_metadata_list =
        record { file_offset = 0; skip_list_length = 16; data_length = 5; footer_length = 6 } ∷ [];
    block_row_count = 1000;
  };
  attributes = text_column ∷ [];
  defaults = [];
  projected_columns = text_var ∷ [];
  where_clauses = [];
  stripe_buffers = none;
  read_stripe_count = 0;
  stripe_read_row_count = 0;
  block_data = create_empty_block_data_array macros (true ∷ []) 1000;
  deserialized_block_index = no_block;
}

begin_read-written :
    begin_read macros pglz protobuf planner written (text_column ∷ []) [] (text_var ∷ []) []
    ≡ ok started
unfolding cstore_fdw.Reader.Rows.begin_read cstore_fdw.FooterFile.Read.read_footer
    cstore_fdw.Disk.read_from_file cstore_fdw.Metadata.deserialize_post_script
    cstore_fdw.CString.strncmp_eq cstore_fdw.Metadata.deserialize_table_footer
    cstore_fdw.Reader.Columns.projected_column_mask cstore_fdw.Reader.Columns.mark_columns
begin_read-written = refl

table_rows-written :
    table_rows macros pglz protobuf planner started started.table_footer.stripe_metadata_list
      started.block_data
    ≡ ok ((some (2 ∷ 7 ∷ []) ∷ []) ∷ (none ∷ []) ∷ [])
unfolding cstore_fdw.Disk.read_from_file cstore_fdw.Reader.Columns.projected_column_mask
    cstore_fdw.Reader.Columns.mark_columns cstore_fdw.Reader.Loading.load_filtered_stripe_buffers
    cstore_fdw.Reader.Loading.load_stripe_footer cstore_fdw.Reader.Loading.load_stripe_skip_list
    cstore_fdw.Reader.Loading.load_skip_lists cstore_fdw.Reader.Loading.added_skip_lists
    cstore_fdw.Reader.Loading.load_column_buffers cstore_fdw.Reader.Loading.load_columns
    cstore_fdw.Reader.Loading.load_exists cstore_fdw.Reader.Loading.load_values
    cstore_fdw.Reader.Selection.selected_block_mask cstore_fdw.Reader.Selection.refute_columns
    cstore_fdw.Reader.Selection.add_row_counts cstore_fdw.Reader.Selection.refute_blocks
    cstore_fdw.Reader.Selection.refute_column cstore_fdw.Reader.Selection.select_column
    cstore_fdw.Reader.Selection.select_columns cstore_fdw.Reader.Selection.select_nodes
    cstore_fdw.Reader.Selection.selected_block_skip_list
    cstore_fdw.Reader.Selection.stripe_skip_list_row_count
    cstore_fdw.Reader.Constraints.build_base_constraint
    cstore_fdw.Reader.Constraints.build_restrict_info_list
    cstore_fdw.Reader.Constraints.get_function_info_or_null
    cstore_fdw.Reader.Constraints.get_operator_by_type
    cstore_fdw.Reader.Constraints.make_op_expression cstore_fdw.Reader.Constraints.update_constraint
    cstore_fdw.Metadata.deserialize_stripe_footer
    cstore_fdw.Metadata.SkipList.deserialize_block_count
    cstore_fdw.Metadata.SkipList.deserialize_column_skip_list create_empty_block_data_array
    cstore_fdw.Reader.Columns.reset_uncompressed_block_data
    cstore_fdw.Reader.Columns.read_stripe_next_row cstore_fdw.Reader.Columns.read_cells
    cstore_fdw.Reader.Blocks.deserialize_block_data cstore_fdw.Reader.Blocks.deserialize_columns
    cstore_fdw.Reader.Blocks.deserialize_column cstore_fdw.Reader.Blocks.deserialize_buffers
    cstore_fdw.BoolArray.deserialize_bool_array cstore_fdw.Datum.deserialize_datum_array
    cstore_fdw.Compression.decompress_buffer
table_rows-written = refl

scan_example :
    Reads macros pglz protobuf planner started ((some (2 ∷ 7 ∷ []) ∷ []) ∷ (none ∷ []) ∷ [])
scan_example =
    scan-begin_read macros pglz protobuf planner written (text_column ∷ []) [] (text_var ∷ []) []
      started ((some (2 ∷ 7 ∷ []) ∷ []) ∷ (none ∷ []) ∷ []) begin_read-written (omega arith)
      (omega arith) table_rows-written

terminates_example :
    scan macros pglz protobuf planner
      (2 ^ 32 * length (started.table_footer.stripe_metadata_list) + 1)
      started
    ≢ ok none
terminates_example =
    scan-terminates macros pglz protobuf planner written (text_column ∷ []) [] (text_var ∷ []) []
      started begin_read-written (omega arith)

abbrev with_default : Attribute
with_default = record text_column { attnum = 3; atthasdef = true }

abbrev its_default : AttrDefault
its_default = record { adnum = 3; adbin = 2 ∷ 8 ∷ [] }

-- A column without a default has no entry among the defaults.
added_without_default :
    fill_added macros pglz planner [] 2 text_column arrays
    ≡ ok (record arrays { exists_array = fill 2 false arrays.exists_array })
unfolding fill_added
added_without_default = refl
