-- ===== src/Reader.antt =====
-- A scan in progress (cstore_reader.c). An array of pointers that the program indexes by column is a
-- list of options, `none` for NULL; a list of pointers that it indexes by block is a list.
pub mod Columns
pub mod Constraints
pub mod Selection
pub mod Loading
pub mod Blocks
pub mod Rows
use cstore_fdw.Prelude.{ℕ, ◌+◌, ◌-◌, ◌%◌, ◌^◌, Bool, Option, none, some, List, [], get_elem?}
use cstore_fdw.Postgres.{Attribute}
use cstore_fdw.Types.{TableFooter, ColumnBlockSkipNode}
use cstore_fdw.Writer.{ColumnBlockBuffers}

-- The fields of PostgreSQL's `Var` that the reader uses.
pub record Var : Type 0 where
  pub varattno : ℕ
  pub vartype : ℕ
  pub vartypmod : ℕ
  pub varcollid : ℕ

-- `varattno - 1` as a `uint32`
abbrev pub column_index : Var → ℕ
column_index v = (v.varattno + 2 ^ 32 - 1) % 2 ^ 32

-- `AttrDefault` of a tuple descriptor: the column's number and the text of its default.
pub record AttrDefault : Type 0 where
  pub adnum : ℕ
  pub adbin : List ℕ

-- `ColumnBlockData`
pub record BlockData (Datum : Type 0) : Type 0 where
  pub exists_array : List Bool
  pub value_array : List Datum
  pub value_buffer : Option (List ℕ)

-- `StripeSkipList`
pub record StripeSkipList (Datum : Type 0) : Type 0 where
  pub skip_nodes : List (Option (List (ColumnBlockSkipNode Datum)))
  pub column_count : ℕ
  pub block_count : ℕ

-- `StripeBuffers`
pub record StripeBuffers : Type 0 where
  pub column_count : ℕ
  pub row_count : ℕ
  pub column_buffers : List (Option (List ColumnBlockBuffers))

-- `TableReadState`. The tuple descriptor is its attributes and defaults; `deserialized_block_index`
-- is compared as a `uint32`, so that -1 is 2 ^ 32 - 1.
pub record TableReadState (Datum : Type 0) (Expr : Type 0) : Type 0 where
  pub table_file : List ℕ
  pub table_footer : TableFooter
  pub attributes : List Attribute
  pub defaults : List AttrDefault
  pub projected_columns : List Var
  pub where_clauses : List Expr
  pub stripe_buffers : Option StripeBuffers
  pub read_stripe_count : ℕ
  pub stripe_read_row_count : ℕ
  pub block_data : List (Option (BlockData Datum))
  pub deserialized_block_index : ℕ

-- The elements behind a pointer: there are none behind NULL, so that to read one is a fault.
abbrev pub elements {ℓ} : {A : Type ℓ} → Option (List A) → List A
elements none = []
elements (some xs) = xs

abbrev pub joined_option {ℓ} : {A : Type ℓ} → Option (Option A) → Option A
joined_option none = none
joined_option (some a) = a

-- `array[index]` as a pointer to elements
abbrev pub elements_at {ℓ} : {A : Type ℓ} → List (Option (List A)) → ℕ → List A
elements_at array index = elements (joined_option (get_elem? array index))
