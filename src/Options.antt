-- ===== src/Options.antt =====
-- The table options (cstore_fdw.c): `ParseCompressionType`, `ValidateForeignTableOptions`,
-- `CStoreGetOptionValue`, `CStoreGetOptions` and `cstore_fdw_validator`. `pg_atoi` and the catalogue's
-- option lists are arguments.
pub mod Validity
use cstore_fdw.Prelude.{
  ℕ, ◌+◌, ◌-◌, ◌^◌, ◌%◌, Bool, true, false, not, ◌&&◌, ◌||◌, Option, none, some, List, [], ◌∷◌,
  ◌++◌, ltb, ◌==◌, if◌then◌else◌,
}
use cstore_fdw.Prelude.Int.{ℤ, pos, negsuc}
use cstore_fdw.Result.{
  Result, ok, err, invalid_option, invalid_compression_type, invalid_integer,
  invalid_stripe_row_count, invalid_block_row_option, require, fail_if, ◌>>=◌, ◌>>◌,
}
use cstore_fdw.CString.{Text, codes, strncmp_eq, namedatalen}
use cstore_fdw.Compression.{
  CompressionType, compression_type_invalid, compression_none, compression_pg_lz,
}

abbrev pub option_name_filename : Text
option_name_filename = codes "filename"

abbrev pub option_name_compression_type : Text
option_name_compression_type = codes "compression"

abbrev pub option_name_stripe_row_count : Text
option_name_stripe_row_count = codes "stripe_row_count"

abbrev pub option_name_block_row_count : Text
option_name_block_row_count = codes "block_row_count"

abbrev pub default_stripe_row_count : ℕ
default_stripe_row_count = 150000

abbrev pub default_block_row_count : ℕ
default_block_row_count = 10000

abbrev pub stripe_row_count_minimum : ℕ
stripe_row_count_minimum = 1000

abbrev pub stripe_row_count_maximum : ℕ
stripe_row_count_maximum = 10000000

abbrev pub block_row_count_minimum : ℕ
block_row_count_minimum = 1000

abbrev pub block_row_count_maximum : ℕ
block_row_count_maximum = 100000

-- `CStoreFdwOptions`
pub record FdwOptions : Type 0 where
  pub filename : Text
  pub compression_type : CompressionType
  pub stripe_row_count : ℕ
  pub block_row_count : ℕ

-- `DefElem`: an option's name and its value
abbrev pub DefElem : Type 0
DefElem = Text × Text

unfoldable pub parse_compression_type : Text → CompressionType
parse_compression_type s =
    if strncmp_eq s (codes "none") namedatalen
    then compression_none
    else if strncmp_eq s (codes "pglz") namedatalen
    then compression_pg_lz
    else compression_type_invalid

abbrev pub is_invalid : CompressionType → Bool
is_invalid compression_type_invalid = true
is_invalid _ = false

-- `n < minimum || n > maximum` for an `int32` that may be negative
abbrev pub out_of_range : ℕ → ℕ → ℤ → Bool
out_of_range minimum maximum (pos n) = ltb n minimum || ltb maximum n
out_of_range minimum maximum (negsuc n) = true

-- the conversion of an `int32` to an unsigned type of `bits` bits
abbrev pub to_unsigned : ℕ → ℤ → ℕ
to_unsigned bits (pos n) = n
to_unsigned bits (negsuc n) = (2 ^ bits - 1 - n) % 2 ^ bits

unfoldable pub get_option_value : List DefElem → List DefElem → Text → Option Text
get_option_value table_options server_options name = find (table_options ++ server_options)
  where
    find : List DefElem → Option Text
    find [] = none
    find ((defname, value) ∷ rest) =
        if strncmp_eq defname name namedatalen then some value else find rest

abbrev pub parse_compression_or : Option Text → CompressionType → CompressionType
parse_compression_or none default = default
parse_compression_or (some s) default = parse_compression_type s

abbrev pub text_or : Option Text → Text → Text
text_or none default = default
text_or (some s) default = s

module _ (pg_atoi : Text → Option ℤ) where
  pub validate_compression_type : Option Text → Result (Unit {0})
  validate_compression_type none = ok tt
  validate_compression_type (some s) =
      fail_if (is_invalid (parse_compression_type s)) invalid_compression_type

  pub validate_stripe_row_count : Option Text → Result (Unit {0})
  validate_stripe_row_count none = ok tt
  validate_stripe_row_count (some s) = do
    n ← require (pg_atoi s) invalid_integer
    fail_if (out_of_range stripe_row_count_minimum stripe_row_count_maximum n)
        invalid_stripe_row_count

  pub validate_block_row_count : Option Text → Result (Unit {0})
  validate_block_row_count none = ok tt
  validate_block_row_count (some s) = do
    n ← require (pg_atoi s) invalid_integer
    fail_if (out_of_range block_row_count_minimum block_row_count_maximum n)
        invalid_block_row_option

  unfoldable pub validate_foreign_table_options :
      Option Text → Option Text → Option Text → Option Text → Result (Unit {0})
  unfolding validate_compression_type validate_stripe_row_count validate_block_row_count
  validate_foreign_table_options filename compression stripe_rows block_rows = do
    validate_compression_type compression
    validate_stripe_row_count stripe_rows
    validate_block_row_count block_rows

  abbrev pub atoi_or : Option Text → ℕ → Result ℤ
  atoi_or none default = ok (pos default)
  atoi_or (some s) default = require (pg_atoi s) invalid_integer

  -- `stripeRowCount` is stored as a `uint64`, `blockRowCount` as a `uint32`.
  unfoldable pub get_options : List DefElem → List DefElem → Text → Result FdwOptions
  unfolding validate_foreign_table_options
  get_options table_options server_options default_file_path = do
    let filename = get_option_value table_options server_options option_name_filename
    let compression = get_option_value table_options server_options option_name_compression_type
    let stripe_rows = get_option_value table_options server_options option_name_stripe_row_count
    let block_rows = get_option_value table_options server_options option_name_block_row_count
    validate_foreign_table_options filename compression stripe_rows block_rows
    stripe_row_count ← atoi_or stripe_rows default_stripe_row_count
    block_row_count ← atoi_or block_rows default_block_row_count
    ok (record {
      filename = text_or filename default_file_path;
      compression_type = parse_compression_or compression compression_none;
      stripe_row_count = to_unsigned 64 stripe_row_count;
      block_row_count = to_unsigned 32 block_row_count;
    })

-- The option strings that the loop of the validator has met; a later option replaces an earlier one.
pub record OptionStrings : Type 0 where
  pub filename : Option Text
  pub compression : Option Text
  pub stripe_rows : Option Text
  pub block_rows : Option Text

abbrev pub no_strings : OptionStrings
no_strings = record { filename = none; compression = none; stripe_rows = none; block_rows = none }

-- `ValidOptionArray`: every option is one of a foreign table.
abbrev pub valid_option_array : List Text
valid_option_array =
    option_name_filename ∷ option_name_compression_type ∷ option_name_stripe_row_count
    ∷ option_name_block_row_count ∷ []

pub is_valid_option : Bool → Text → List Text → Bool
is_valid_option table_context name [] = false
is_valid_option table_context name (valid ∷ rest) =
    (table_context && strncmp_eq name valid namedatalen) || is_valid_option table_context name rest

pub store_option : OptionStrings → Text → Text → OptionStrings
store_option s name value =
    if strncmp_eq name option_name_filename namedatalen
    then record s { filename = some value }
    else if strncmp_eq name option_name_compression_type namedatalen
    then record s { compression = some value }
    else if strncmp_eq name option_name_stripe_row_count namedatalen
    then record s { stripe_rows = some value }
    else if strncmp_eq name option_name_block_row_count namedatalen
    then record s { block_rows = some value }
    else s

pub collect_options : Bool → OptionStrings → List DefElem → Result OptionStrings
collect_options table_context s [] = ok s
collect_options table_context s ((name, value) ∷ rest) = do
  fail_if (not (is_valid_option table_context name valid_option_array)) invalid_option
  collect_options table_context (store_option s name value) rest

-- the options of a server or a wrapper have no values to check
pub validate_collected : (Text → Option ℤ) → Bool → OptionStrings → Result (Unit {0})
validate_collected pg_atoi true s =
    validate_foreign_table_options pg_atoi s.filename s.compression s.stripe_rows s.block_rows
validate_collected pg_atoi false s = ok tt

-- `table_context`: whether `optionContextId` is `ForeignTableRelationId`
unfoldable pub fdw_validator : (Text → Option ℤ) → List DefElem → Bool → Result (Unit {0})
unfolding is_valid_option store_option collect_options validate_collected
fdw_validator pg_atoi options table_context = do
  s ← collect_options table_context no_strings options
  validate_collected pg_atoi table_context s
