-- ===== src/Reader/Blocks.antt =====
-- The values of a block (cstore_reader.c): `DeserializeBlockData` and `ColumnDefaultValue`.
pub mod RoundTrip
pub mod Added
use cstore_fdw.Prelude.{
  ℕ, Bool, true, false, ◌||◌, Option, none, some, List, [], ◌∷◌, ◌++◌, ltb, ◌==◌, if◌then◌else◌,
  get_elem?, length, take, drop, replicate,
}
use cstore_fdw.Result.{Result, ok, err, unsupported_default, fault, fail_if, require, ◌>>=◌, ◌>>◌}
use cstore_fdw.Postgres.{Attribute, TupleMacros}
use cstore_fdw.Compression.{Pglz, decompress_buffer}
use cstore_fdw.BoolArray.{deserialize_bool_array}
use cstore_fdw.Datum.{deserialize_datum_array}
use cstore_fdw.Writer.{ColumnBlockBuffers}
use cstore_fdw.Reader.{AttrDefault, BlockData, StripeBuffers}
use cstore_fdw.Reader.Constraints.{Planner}

-- The loop over the defaults: the text of the column's default.
unfoldable pub find_default : ℕ → List AttrDefault → Option (List ℕ)
find_default attnum [] = none
find_default attnum (d ∷ ds) =
    let rest = find_default attnum ds in if d.adnum == attnum then some d.adbin else rest

-- Writing the first `n` entries of an array, which has as many.
abbrev pub fill {ℓ} : {A : Type ℓ} → ℕ → A → List A → List A
fill n a array = replicate n a ++ drop n array

-- The array has less than `n` entries.
abbrev pub is_short : {Datum : Type 0} → BlockData Datum → ℕ → Bool
is_short d n = ltb (length d.exists_array) n || ltb (length d.value_array) n

abbrev pub any_set : List Bool → Bool
any_set [] = false
any_set (b ∷ bs) = b || any_set bs

module _ (macros : TupleMacros) (pglz : Pglz) (planner : Planner macros.Datum) where
  open macros use {Datum}

  -- A column without a default faults: `IsA` follows the NULL that is left of its node.
  unfoldable pub column_default_value : List AttrDefault → Attribute → Result Datum
  column_default_value defaults a = do
    text ← require (find_default a.attnum defaults) fault
    constant ← require (planner.default_constant text) unsupported_default
    ok constant.constvalue

  -- `DeserializeDatumArray`, which follows a NULL at the first value.
  abbrev pub deserialize_values :
      Option (List ℕ) → List Bool → ℕ → Attribute → List Datum → Result (List Datum)
  deserialize_values none exists row_count a datums = do
    fail_if (any_set (take row_count exists)) fault
    ok datums
  deserialize_values (some values) exists row_count a datums =
      deserialize_datum_array macros values exists row_count a.attbyval a.attlen a.attalign datums

  -- the part for a column of the stripe; the buffer of the block before must not be NULL
  unfoldable pub deserialize_buffers :
      ℕ → ℕ → Attribute → List ColumnBlockBuffers → BlockData Datum → Result (BlockData Datum)
  deserialize_buffers block_index row_count a buffers d = do
    b ← require (get_elem? buffers block_index) fault
    freed ← require d.value_buffer fault
    raw ← require b.value_buffer fault
    values ← decompress_buffer pglz raw b.value_compression_type
    bits ← require b.exists_buffer fault
    exists ← deserialize_bool_array bits d.exists_array row_count
    fail_if (is_short d row_count) fault
    datums ← deserialize_values values exists row_count a d.value_array
    ok (record { exists_array = exists; value_array = datums; value_buffer = values })

  -- the part for a column that was added behind those of the stripe
  unfoldable pub fill_added :
      List AttrDefault → ℕ → Attribute → BlockData Datum → Result (BlockData Datum)
  unfolding column_default_value
  fill_added defaults row_count a d = do
    fail_if (is_short d row_count) fault
    elim a.atthasdef [
      | true ↦ column_default_value defaults a >>= (λ value. ok (record d {
        exists_array = fill row_count true d.exists_array;
        value_array = fill row_count value d.value_array;
      }))
      | false ↦ ok (record d { exists_array = fill row_count false d.exists_array })
    ]

  -- one round of the loop over the columns
  unfoldable pub deserialize_column :
      List AttrDefault
      → ℕ
      → ℕ
      → Attribute
      → Option (List ColumnBlockBuffers)
      → Option (BlockData Datum)
      → Result (Option (BlockData Datum))
  deserialize_column defaults block_index row_count a none none = ok none
  deserialize_column defaults block_index row_count a none (some d) = do
    d' ← fill_added defaults row_count a d
    ok (some d')
  deserialize_column defaults block_index row_count a (some buffers) none = err fault
  deserialize_column defaults block_index row_count a (some buffers) (some d) = do
    d' ← deserialize_buffers block_index row_count a buffers d
    ok (some d')

  -- The loop: the three lists have an entry for each column.
  unfoldable pub deserialize_columns :
      List AttrDefault
      → ℕ
      → ℕ
      → List Attribute
      → List (Option (List ColumnBlockBuffers))
      → List (Option (BlockData Datum))
      → Result (List (Option (BlockData Datum)))
  deserialize_columns defaults block_index row_count (a ∷ attributes) (c ∷ columns) (d ∷ ds) = do
    d' ← deserialize_column defaults block_index row_count a c d
    rest ← deserialize_columns defaults block_index row_count attributes columns ds
    ok (d' ∷ rest)
  deserialize_columns defaults block_index row_count [] columns ds = ok []
  deserialize_columns defaults block_index row_count (a ∷ attributes) [] ds = err fault
  deserialize_columns defaults block_index row_count (a ∷ attributes) (c ∷ columns) [] = err fault

  unfoldable pub deserialize_block_data :
      StripeBuffers
      → ℕ
      → ℕ
      → List (Option (BlockData Datum))
      → List Attribute
      → List AttrDefault
      → Result (List (Option (BlockData Datum)))
  deserialize_block_data stripe block_index row_count block_data attributes defaults =
      deserialize_columns defaults block_index row_count attributes stripe.column_buffers block_data
