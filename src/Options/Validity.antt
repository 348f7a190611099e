-- ===== src/Options/Validity.antt =====
-- Which options are accepted, and what range their values have.
use cstore_fdw.Prelude.{
  suc, length, ◌∙◌, Bool-cases, ap, ℕ, ◌≤◌, ◌≡◌, refl, ◌≢◌, ◌↔◌, ◌⊎◌, inl, inr, Bool, false, Option,
  none, some, List, [], ◌∷◌, ◌++◌, arith,
}
use cstore_fdw.Prelude.Int.{ℤ, pos, negsuc}
use cstore_fdw.Result.{
  ok-injective, >>=-eq-ok, Error, ok, err, invalid_option, require, fail_if, ◌>>=◌,
}
use cstore_fdw.CString.{Text, codes, strncmp_eq, namedatalen, strncmp_eq→eq}
use cstore_fdw.Compression.{compression_type_invalid, compression_none}
use cstore_fdw.Options.{
  no_strings, OptionStrings, collect_options, store_option, is_valid_option, valid_option_array,
  atoi_or, parse_compression_or, option_name_compression_type, option_name_stripe_row_count,
  option_name_block_row_count, option_name_filename, default_stripe_row_count,
  default_block_row_count, out_of_range, block_row_count_minimum, block_row_count_maximum,
  stripe_row_count_minimum, stripe_row_count_maximum, FdwOptions, DefElem, parse_compression_type,
  validate_compression_type, validate_stripe_row_count, validate_block_row_count,
  validate_foreign_table_options, get_option_value, get_options, fdw_validator,
}

-- What the documentation says of an option's value: absent, or a number in the range.
abbrev pub InRange : (Text → Option ℤ) → ℕ → ℕ → Option Text → Type 0
InRange pg_atoi lo hi none = Unit {0}
InRange pg_atoi lo hi (some s) = (n : ℕ) × (pg_atoi s ≡ some (pos n)) × (lo ≤ n) × (n ≤ hi)

abbrev pub IsCompressionName : Option Text → Type 0
IsCompressionName none = Unit {0}
IsCompressionName (some s) = (s ≡ codes "none") ⊎ (s ≡ codes "pglz")

name_of_type :
    (s : Text)
    → parse_compression_type s ≢ compression_type_invalid
    → (s ≡ codes "none") ⊎ (s ≡ codes "pglz")
unfolding parse_compression_type
name_of_type s ne = elim (Bool-cases (strncmp_eq s (codes "none") namedatalen)) [
  | inl e ↦ inl (strncmp_eq→eq s (codes "none") namedatalen (omega arith) e)
  | inr e ↦ elim (Bool-cases (strncmp_eq s (codes "pglz") namedatalen)) [
    | inl f ↦ inr (strncmp_eq→eq s (codes "pglz") namedatalen (omega arith) f)
    | inr f ↦ absurd (ne (rw (e, f)))
  ]
]

type_of_name :
    (s : Text)
    → (s ≡ codes "none") ⊎ (s ≡ codes "pglz")
    → parse_compression_type s ≢ compression_type_invalid
unfolding parse_compression_type strncmp_eq
type_of_name s (inl e) h = cc (ap parse_compression_type e)
type_of_name s (inr e) h = cc (ap parse_compression_type e)

-- Reading a number and testing its range, with an error for each.
InRange_iff :
    (o : Option ℤ) (lo hi : ℕ) (bad outside : Error)
    → ((require o bad >>= λ n. fail_if (out_of_range lo hi n) outside) ≡ ok tt)
      ↔ ((n : ℕ) × (o ≡ some (pos n)) × (lo ≤ n) × (n ≤ hi))
InRange_iff none lo hi bad outside = (λ h. cc, λ n. cc (n.1))
InRange_iff (some (pos n)) lo hi bad outside =
    (λ h. (n, refl, ground arith, ground arith), λ w. ground (arith, w.1))
InRange_iff (some (negsuc n)) lo hi bad outside = (λ h. cc, λ w. cc (w.1))

unknown :
    (name valid : Text)
    → suc (length valid) ≤ namedatalen
    → name ≢ valid
    → strncmp_eq name valid namedatalen ≡ false
unknown name valid fits ne = elim (Bool-cases (strncmp_eq name valid namedatalen)) [
  | inl e ↦ absurd (ne (strncmp_eq→eq name valid namedatalen fits e))
  | inr e ↦ e
]

module _ (pg_atoi : Text → Option ℤ) where
  compression_iff :
      (s : Option Text) → (validate_compression_type pg_atoi s ≡ ok tt) ↔ IsCompressionName s
  unfolding validate_compression_type
  compression_iff none = (λ _. tt, λ _. refl)
  compression_iff (some s) = (
    λ h. name_of_type s (λ e. ground (arith, e)),
    λ n. let ne = type_of_name s n in ground (arith, ne),
  )

  stripe_iff :
      (s : Option Text)
      → (validate_stripe_row_count pg_atoi s ≡ ok tt)
        ↔ InRange pg_atoi stripe_row_count_minimum stripe_row_count_maximum s
  unfolding validate_stripe_row_count
  stripe_iff none = (λ _. tt, λ _. refl)
  stripe_iff (some s) = InRange_iff (pg_atoi s) _ _ _ _

  block_iff :
      (s : Option Text)
      → (validate_block_row_count pg_atoi s ≡ ok tt)
        ↔ InRange pg_atoi block_row_count_minimum block_row_count_maximum s
  unfolding validate_block_row_count
  block_iff none = (λ _. tt, λ _. refl)
  block_iff (some s) = InRange_iff (pg_atoi s) _ _ _ _

  -- The options of a table are accepted exactly when the compression, if given, is `none` or
  -- `pglz`, the stripe row count, if given, is an integer from 1000 to 10000000, and the block row
  -- count, if given, is one from 1000 to 100000, whatever the file name.
  pub validate_foreign_table_options_iff :
      (filename compression stripe_rows block_rows : Option Text)
      → (validate_foreign_table_options pg_atoi filename compression stripe_rows block_rows ≡ ok tt)
        ↔ (IsCompressionName compression
            × InRange pg_atoi 1000 10000000 stripe_rows
            × InRange pg_atoi 1000 100000 block_rows)
  unfolding validate_foreign_table_options
  validate_foreign_table_options_iff filename compression stripe_rows block_rows = (
    λ h.
        let (u, p, q) = >>=-eq-ok (validate_compression_type pg_atoi compression) _ h in
        let (u', p', q') = >>=-eq-ok (validate_stripe_row_count pg_atoi stripe_rows) _ q in
        (
          (compression_iff compression).0 p,
          (stripe_iff stripe_rows).0 p',
          (block_iff block_rows).0 q',
        ),
    λ w.
        rw ((compression_iff compression).1 w.0, (stripe_iff stripe_rows).1 w.1)
          ((block_iff block_rows).1 w.2),
  )

  number-InRange :
      (s : Option Text) (lo hi default : ℕ) (z : ℤ)
      → lo ≤ default
      → default ≤ hi
      → InRange pg_atoi lo hi s
      → atoi_or pg_atoi s default ≡ ok z
      → (n : ℕ) × (z ≡ pos n) × (lo ≤ n) × (n ≤ hi)
  number-InRange none lo hi default z h k r e = (default, ground arith, h, k)
  number-InRange (some s) lo hi default z h k (n, p, a, b) e = (n, ground arith, a, b)

  known_compression :
      (s : Option Text)
      → IsCompressionName s
      → parse_compression_or s compression_none ≢ compression_type_invalid
  known_compression none h = λ e. cc
  known_compression (some s) h = type_of_name s h

  -- Whatever options a table and its server have, what `get_options` returns is in range: a known
  -- compression, 1000 to 10000000 rows in a stripe and 1000 to 100000 rows in a block.
  pub get_options-InRange :
      (table_options server_options : List DefElem) (path : Text) (o : FdwOptions)
      → get_options pg_atoi table_options server_options path ≡ ok o
      → (o.compression_type ≢ compression_type_invalid)
        × (1000 ≤ o.stripe_row_count)
        × (o.stripe_row_count ≤ 10000000)
        × (1000 ≤ o.block_row_count)
        × (o.block_row_count ≤ 100000)
  unfolding get_options
  get_options-InRange table_options server_options path o h =
      let c = get_option_value table_options server_options option_name_compression_type in
      let sr = get_option_value table_options server_options option_name_stripe_row_count in
      let br = get_option_value table_options server_options option_name_block_row_count in
      let f = get_option_value table_options server_options option_name_filename in
      let (u, p, q) = >>=-eq-ok (validate_foreign_table_options pg_atoi f c sr br) _ h in
      let (z, p', q') = >>=-eq-ok (atoi_or pg_atoi sr default_stripe_row_count) _ q in
      let (z', p'', q'') = >>=-eq-ok (atoi_or pg_atoi br default_block_row_count) _ q' in
      let w = (validate_foreign_table_options_iff f c sr br).0 p in
      let a =
        number-InRange sr 1000 10000000 default_stripe_row_count z (omega arith) (omega arith) w.1
          p' in
      let b =
        number-InRange br 1000 100000 default_block_row_count z' (omega arith) (omega arith) w.2
          p'' in
      let k = known_compression c w.0 in
      (
        λ e. k (ap (λ (r : FdwOptions). r.compression_type) (ok-injective q'') ∙ e),
        ground arith,
        ground arith,
        ground arith,
        ground arith,
      )

  collect_options_unknown :
      (before : List DefElem) (s : OptionStrings) (name value : Text) (rest : List DefElem)
      (table_context : Bool)
      → name ≢ option_name_filename
      → name ≢ option_name_compression_type
      → name ≢ option_name_stripe_row_count
      → name ≢ option_name_block_row_count
      → collect_options table_context s (before ++ (name, value) ∷ rest) ≡ err invalid_option
  unfolding fdw_validator collect_options is_valid_option
  collect_options_unknown [] s name value rest table_context a b c d =
      rw
        (
          unknown name option_name_filename (omega arith) a,
          unknown name option_name_compression_type (omega arith) b,
          unknown name option_name_stripe_row_count (omega arith) c,
          unknown name option_name_block_row_count (omega arith) d,
        )
        (ground arith)
  collect_options_unknown ((first, v) ∷ before) s name value rest table_context a b c d =
      elim (Bool-cases (is_valid_option table_context first valid_option_array)) [
        | inl e ↦ rw (e) (
            collect_options_unknown before (store_option s first v) name value rest table_context a
              b c d)
        | inr e ↦ rw (e) refl
      ]

  -- An option that the wrapper does not know is refused, whatever stands in front of it and behind
  -- it.
  pub fdw_validator_unknown :
      (before : List DefElem) (name value : Text) (rest : List DefElem) (table_context : Bool)
      → name ≢ option_name_filename
      → name ≢ option_name_compression_type
      → name ≢ option_name_stripe_row_count
      → name ≢ option_name_block_row_count
      → fdw_validator pg_atoi (before ++ (name, value) ∷ rest) table_context ≡ err invalid_option
  unfolding fdw_validator
  fdw_validator_unknown before name value rest table_context a b c d =
      rw (collect_options_unknown before no_strings name value rest table_context a b c d) refl
