-- ===== src/Result.antt =====
-- What a function of the extension leaves behind when it does not return: `ereport(ERROR, …)`, one
-- constructor for each message, and `fault` for an access that C leaves undefined.
use cstore_fdw.Prelude.{◌≡◌, refl, Bool, true, false, Option, none, some}

pub data Error : Type 0 where
  -- the file system
  could_not_open could_not_seek could_not_read not_enough_data could_not_write could_not_sync :
      Error
  could_not_rename could_not_close could_not_delete : Error
  -- the table footer file
  invalid_cstore_file invalid_postscript_size invalid_footer_size : Error
  invalid_postscript_buffer invalid_version_number invalid_magic_number : Error
  invalid_table_footer_buffer missing_footer_fields invalid_block_row_count : Error
  missing_stripe_fields : Error
  -- stripe footers and skip lists
  invalid_stripe_footer_buffer size_arrays_mismatch column_count_mismatch : Error
  invalid_skip_list_buffer block_count_mismatch missing_skip_node_fields min_max_mismatch : Error
  -- column data
  insufficient_bool_data insufficient_datum_data unsupported_default : Error
  wrong_compressed_size corrupted_compressed_data : Error
  -- a string of 1 GB
  string_too_large : Error
  -- options
  invalid_option invalid_compression_type invalid_integer invalid_stripe_row_count : Error
  invalid_block_row_option : Error
  -- utility commands
  permission_denied cannot_cast_automatically must_be_superuser : Error
  column_list_not_supported not_a_directory could_not_create could_not_stat : Error
  -- undefined behaviour of C: a read through NULL or past the end of an array
  fault : Error

pub data Result {ℓ} (A : Type ℓ) : Type ℓ where
  ok : A → Result A
  err : Error → Result A

-- What runs after a step that may have failed.
abbrev pub and_then {ℓ κ} :
    {Before : Type ℓ} {After : Type κ} → (Before → Result After) → Result Before → Result After
and_then next (err e) = err e
and_then next (ok before) = next before

infixl 5 ◌>>◌ ◌>>=◌
abbrev pub ◌>>=◌ {ℓ κ} :
    {Before : Type ℓ} {After : Type κ} → Result Before → (Before → Result After) → Result After
step >>= next = and_then next step

abbrev pub ◌>>◌ {ℓ} : {After : Type ℓ} → Result (Unit {0}) → Result After → Result After
step >> after = and_then (λ _. after) step

-- `if (test) ereport(ERROR, …)`
abbrev pub fail_if : Bool → Error → Result (Unit {0})
fail_if true e = err e
fail_if false e = ok tt

-- A pointer that may be NULL, or an array element that may be out of range.
abbrev pub require {ℓ} : {A : Type ℓ} → Option A → Error → Result A
require none e = err e
require (some a) e = ok a

-- A successful chain succeeds at its first step.
pub >>=-eq-ok {ℓ κ} :
    {Before : Type ℓ} {After : Type κ} (step : Result Before) (next : Before → Result After)
    {after : After}
    → (step >>= next) ≡ ok after
    → (before : Before) × (step ≡ ok before) × (next before ≡ ok after)
>>=-eq-ok (err e) next done = cc
>>=-eq-ok (ok before) next done = (before, refl, done)

pub ok-injective {ℓ} : {A : Type ℓ} {a b : A} → ok a ≡ ok b → a ≡ b
ok-injective e = cc
