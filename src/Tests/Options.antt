-- ===== src/Tests/Options.antt =====
-- The theorems on the options of a table, at concrete inputs.
use cstore_fdw.Prelude.{
  ◌++◌, ℕ, ◌≤◌, ◌≡◌, refl, ◌≢◌, true, Option, none, some, List, [], ◌∷◌, ◌+◌, ◌*◌, ◌-◌, ◌↔◌,
}
use cstore_fdw.Prelude.Int.{ℤ, pos}
use cstore_fdw.Result.{ok, err, invalid_option}
use cstore_fdw.CString.{Text, codes, strncmp_eq}
use cstore_fdw.Compression.{compression_type_invalid, compression_pg_lz}
use cstore_fdw.Options.{
  get_option_value, parse_compression_type, FdwOptions, DefElem, validate_foreign_table_options,
  get_options, fdw_validator,
}
use cstore_fdw.Options.Validity.{
  IsCompressionName, InRange, validate_foreign_table_options_iff, get_options-InRange,
  fdw_validator_unknown,
}

-- A number of at most four digits, and nothing else.
abbrev digits : ℕ → Text → Option ℤ
digits n [] = some (pos n)
digits n (c ∷ cs) = digits (n * 10 + (c - 48)) cs

abbrev atoi : Text → Option ℤ
atoi [] = none
atoi (c ∷ cs) = digits 0 (c ∷ cs)

abbrev table_options : List DefElem
table_options = (codes "compression", codes "pglz") ∷ (codes "stripe_row_count", codes "2000") ∷ []

options_accepted_example :
    (validate_foreign_table_options atoi none (some (codes "pglz")) (some (codes "2000")) none
      ≡ ok tt)
    ↔ (IsCompressionName (some (codes "pglz"))
        × InRange atoi 1000 10000000 (some (codes "2000"))
        × InRange atoi 1000 100000 none)
options_accepted_example =
    validate_foreign_table_options_iff atoi none (some (codes "pglz")) (some (codes "2000")) none

abbrev options : FdwOptions
options = record {
  filename = codes "/data/1";
  compression_type = compression_pg_lz;
  stripe_row_count = 2000;
  block_row_count = 10000;
}

options_example :
    (options.compression_type ≢ compression_type_invalid)
    × (1000 ≤ options.stripe_row_count)
    × (options.stripe_row_count ≤ 10000000)
    × (1000 ≤ options.block_row_count)
    × (options.block_row_count ≤ 100000)
unfolding get_options get_option_value parse_compression_type strncmp_eq
options_example = get_options-InRange atoi table_options [] (codes "/data/1") options refl

unknown_option_example :
    fdw_validator atoi (table_options ++ (codes "sort_by", codes "a") ∷ table_options) true
    ≡ err invalid_option
unknown_option_example =
    fdw_validator_unknown atoi table_options (codes "sort_by") (codes "a") table_options true
      (λ e. cc) (λ e. cc) (λ e. cc) (λ e. cc)
