-- ===== src/Reader/Rows.antt =====
-- A scan from its start to its end (cstore_reader.c): `CStoreBeginRead` and `CStoreReadNextRow`.
-- `CStoreEndRead` only frees memory and closes the file.
pub mod Reference
pub mod Stripe
pub mod Refine
pub mod Terminates
use cstore_fdw.Prelude.{
  ℕ, zero, suc, ◌+◌, ◌-◌, ◌/◌, ◌%◌, ◌^◌, Bool, true, false, Option, none, some, List, [], ◌∷◌, drop,
  ◌==◌, if◌then◌else◌, length,
}
use cstore_fdw.Result.{Result, ok, could_not_open, fault, fail_if, require, ◌>>=◌, ◌>>◌}
use cstore_fdw.Postgres.{Attribute, TupleMacros}
use cstore_fdw.Compression.{Pglz}
use cstore_fdw.Disk.{Disk}
use cstore_fdw.Protobuf.{Protobuf}
use cstore_fdw.Types.{StripeMetadata}
use cstore_fdw.FooterFile.Read.{read_footer}
use cstore_fdw.Reader.{Var, AttrDefault, StripeBuffers, TableReadState}
use cstore_fdw.Reader.Columns.{
  projected_column_mask, create_empty_block_data_array, reset_uncompressed_block_data,
  read_stripe_next_row,
}
use cstore_fdw.Reader.Constraints.{Planner}
use cstore_fdw.Reader.Loading.{load_filtered_stripe_buffers}
use cstore_fdw.Reader.Blocks.{deserialize_block_data}

-- -1, cast to a `uint32`
abbrev pub no_block : ℕ
no_block = 2 ^ 32 - 1

-- The number of rows of a block, where the stripe and a full block have so many.
abbrev pub rows_of_block : ℕ → ℕ → ℕ → ℕ
rows_of_block stripe_rows block_rows block_index =
    if block_index == stripe_rows / block_rows then stripe_rows % block_rows else block_rows

module _ (macros : TupleMacros) (pglz : Pglz) (protobuf : Protobuf)
    (planner : Planner macros.Datum) where
  open macros use {Datum}
  open planner use {Expr}

  abbrev pub State : Type 0
  State = TableReadState Datum Expr

  unfoldable pub begin_read :
      Disk → List Attribute → List AttrDefault → List Var → List Expr → Result State
  begin_read d attributes defaults vars clauses = do
    footer ← read_footer protobuf d.footer_file
    content ← require d.data_file could_not_open
    mask ← projected_column_mask (length attributes) vars
    ok (record {
      table_file = content;
      table_footer = footer;
      attributes = attributes;
      defaults = defaults;
      projected_columns = vars;
      where_clauses = clauses;
      stripe_buffers = none;
      read_stripe_count = 0;
      stripe_read_row_count = 0;
      block_data = create_empty_block_data_array macros mask footer.block_row_count;
      deserialized_block_index = no_block;
    })

  -- the state with a new stripe of at least a row
  abbrev pub enter_stripe : State → StripeBuffers → State
  enter_stripe s stripe = record s {
    stripe_buffers = some stripe;
    read_stripe_count = (s.read_stripe_count + 1) % 2 ^ 32;
    stripe_read_row_count = 0;
    deserialized_block_index = no_block;
    block_data = reset_uncompressed_block_data s.block_data;
  }

  abbrev pub skip_stripe : State → State
  skip_stripe s = record s { read_stripe_count = (s.read_stripe_count + 1) % 2 ^ 32 }

  -- The `while` loop, over the stripes that are not read yet; `false` is for the end of the table.
  unfoldable pub load_next_stripe : State → List StripeMetadata → Result (Bool × State)
  load_next_stripe s [] = ok (false, s)
  load_next_stripe s (m ∷ stripes) = do
    stripe ←
        load_filtered_stripe_buffers macros protobuf planner s.table_file m s.attributes
          s.projected_columns s.where_clauses
    let rest = load_next_stripe (skip_stripe s) stripes
    if stripe.row_count == 0 then rest else ok (true, enter_stripe s stripe)

  -- The loop runs where no stripe is loaded.
  unfoldable pub ensure_stripe : State → Option StripeBuffers → Result (Bool × State)
  ensure_stripe s none =
      load_next_stripe s (drop s.read_stripe_count s.table_footer.stripe_metadata_list)
  ensure_stripe s (some stripe) = ok (true, s)

  -- "if (blockIndex != readState->deserializedBlockIndex)"
  unfoldable pub ensure_block : State → StripeBuffers → ℕ → Result State
  ensure_block s stripe block_index =
      if block_index == s.deserialized_block_index
      then ok s
      else deserialize_block_data macros pglz planner stripe block_index
          (rows_of_block stripe.row_count s.table_footer.block_row_count block_index) s.block_data
          s.attributes s.defaults
        >>= (λ block_data.
            ok (record s { block_data = block_data; deserialized_block_index = block_index }))

  -- the state behind a row; a stripe whose last row was read is dropped
  abbrev pub pass_row : State → StripeBuffers → State
  pass_row s stripe =
      let count = (s.stripe_read_row_count + 1) % 2 ^ 64 in
      record s {
        stripe_read_row_count = count;
        stripe_buffers = if count == stripe.row_count then none else some stripe;
      }

  -- the next row of a stripe; the block index is a `uint32`
  unfoldable pub read_row : State → StripeBuffers → Result (Option (List (Option Datum)) × State)
  read_row s stripe = do
    let block_rows = s.table_footer.block_row_count
    fail_if (block_rows == 0) fault
    loaded ← ensure_block s stripe (s.stripe_read_row_count / block_rows % 2 ^ 32)
    row ←
        read_stripe_next_row stripe.column_count s.projected_columns
          (s.stripe_read_row_count % block_rows) loaded.block_data
    ok (some row, pass_row loaded stripe)

  -- The row is `none` where the code returns false.
  unfoldable pub read_next_row : State → Result (Option (List (Option Datum)) × State)
  read_next_row s = do
    (found, s') ← ensure_stripe s s.stripe_buffers
    elim found [ false ↦ ok (none, s') | true ↦ require s'.stripe_buffers fault >>= read_row s' ]
