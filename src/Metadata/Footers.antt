-- ===== src/Metadata/Footers.antt =====
-- Footers and postscripts are read back as they were written, and what is not of this format is
-- refused.
use cstore_fdw.Prelude.{
  none, ap, Option, not, ◌↔◌, ◌||◌, ltb, ◌==◌, ℕ, ◌%◌, ◌^◌, ◌≤◌, ◌<◌, ◌≡◌, refl, ◌≢◌, inl, inr,
  some, List, [], ◌∷◌, map, arith, length, take, All, take-all, Bool-cases, false,
}
use cstore_fdw.Result.{require, fault, fail_if, ok-injective, ◌>>=◌, ◌>>◌, ok, invalid_magic_number}
use cstore_fdw.CString.{strncmp_eq→eq, Text, strncmp_eq, strncmp_eq_refl, namedatalen}
use cstore_fdw.Protobuf
use cstore_fdw.Protobuf.{Protobuf, ProtobufLaws, IsU64, FitsStripe}
use cstore_fdw.Types.{StripeMetadata, TableFooter, StripeFooter}
use cstore_fdw.Metadata.{
  cstore_version_major, cstore_version_minor, cstore_magic_number, default_to, post_script_of,
  protobuf_stripe, protobuf_footer, protobuf_stripe_footer, read_stripes, serialize_post_script,
  serialize_table_footer, serialize_stripe_footer, deserialize_post_script,
  deserialize_table_footer, deserialize_stripe_footer,
}

-- The four numbers of a stripe are `uint64`s.
abbrev pub FitsMetadata : StripeMetadata → Type 0
FitsMetadata s =
    IsU64 s.file_offset × IsU64 s.skip_list_length × IsU64 s.data_length × IsU64 s.footer_length

-- A footer as the extension writes it.
pub record IsFooter (f : TableFooter) : Type 0 where
  pub stripes : All FitsMetadata f.stripe_metadata_list
  pub rows_min : 1000 ≤ f.block_row_count
  pub rows_max : f.block_row_count ≤ 100000

-- A stripe footer with an entry for each column in every array.
pub record IsStripeFooter (f : StripeFooter) : Type 0 where
  pub columns : f.column_count < 2 ^ 32
  pub skip_lists : length f.skip_list_sizes ≡ f.column_count
  pub exists : length f.exists_sizes ≡ f.column_count
  pub values : length f.value_sizes ≡ f.column_count
  pub skip_lists_fit : All IsU64 f.skip_list_sizes
  pub exists_fit : All IsU64 f.exists_sizes
  pub values_fit : All IsU64 f.value_sizes

read_stripes-map : (l : List StripeMetadata) → read_stripes (map protobuf_stripe l) ≡ ok l
unfolding read_stripes
read_stripes-map [] = refl
read_stripes-map (s ∷ l) = rw (read_stripes-map l)

FitsStripe-map :
    (l : List StripeMetadata) → All FitsMetadata l → All FitsStripe (map protobuf_stripe l)
FitsStripe-map [] h = tt
FitsStripe-map (s ∷ l) h = (h.0, FitsStripe-map l h.1)

other_magic :
    (t : Text) → t ≢ cstore_magic_number → strncmp_eq t cstore_magic_number namedatalen ≡ false
other_magic t ne = elim (Bool-cases (strncmp_eq t cstore_magic_number namedatalen)) [
  | inl e ↦ absurd (ne (strncmp_eq→eq t cstore_magic_number namedatalen (omega arith) e))
  | inr e ↦ e
]

module _ (protobuf : Protobuf) (laws : ProtobufLaws protobuf) where
  -- The length of the table footer is read back from the postscript.
  pub deserialize-serialize_post_script :
      (n : ℕ) → IsU64 n → deserialize_post_script protobuf (serialize_post_script protobuf n) ≡ ok n
  unfolding deserialize_post_script serialize_post_script
  deserialize-serialize_post_script n h = rw (
    laws.post_script (post_script_of n) h (omega arith) (omega arith),
    strncmp_eq_refl cstore_magic_number namedatalen,
  )

  -- A table footer with a block row count from 1000 to 100000 is read back as it was written, with
  -- its stripes in order.
  pub deserialize-serialize_table_footer :
      (f : TableFooter)
      → IsFooter f
      → deserialize_table_footer protobuf (serialize_table_footer protobuf f) ≡ ok f
  unfolding deserialize_table_footer serialize_table_footer
  deserialize-serialize_table_footer f h =
      rw
        (
          laws.table_footer (protobuf_footer f) (FitsStripe-map f.stripe_metadata_list h.stripes)
              (omega arith),
          read_stripes-map f.stripe_metadata_list,
        )
        (ground arith)

  -- A stripe footer is read back as it was written.
  pub deserialize-serialize_stripe_footer :
      (f : StripeFooter)
      → IsStripeFooter f
      → deserialize_stripe_footer protobuf (serialize_stripe_footer protobuf f) ≡ ok f
  unfolding deserialize_stripe_footer serialize_stripe_footer
  deserialize-serialize_stripe_footer f h =
      rw (unpacked, deserialize_stripe_footer)
        (ground (
          arith,
          cut f.skip_list_sizes h.skip_lists,
          cut f.exists_sizes h.exists,
          cut f.value_sizes h.values,
          small,
        ))
    where
      cut : (l : List ℕ) → length l ≡ f.column_count → take f.column_count l ≡ l
      cut l e = take-all f.column_count l (omega arith)

      small : f.column_count % 2 ^ 32 ≡ f.column_count
      small = omega (arith, h.columns)

      message : Protobuf.StripeFooter
      message = record {
        skiplistsizearray = f.skip_list_sizes;
        existssizearray = f.exists_sizes;
        valuesizearray = f.value_sizes;
      }

      unpacked :
          protobuf.stripe_footer_unpack (protobuf.stripe_footer_pack (protobuf_stripe_footer f))
          ≡ some message
      unpacked =
          rw
            (
              cut f.skip_list_sizes h.skip_lists,
              cut f.exists_sizes h.exists,
              cut f.value_sizes h.values,
            )
            (laws.stripe_footer message h.skip_lists_fit h.exists_fit h.values_fit)

  magic_of :
      (o : Option Text) (n k : ℕ)
      → (require o fault >>= λ magic.
          fail_if (not (strncmp_eq magic cstore_magic_number namedatalen)) invalid_magic_number
          >> ok k)
        ≡ ok n
      → (o ≡ some cstore_magic_number) × (k ≡ n)
  magic_of none n k h = cc
  magic_of (some t) n k h = elim (Bool-cases (strncmp_eq t cstore_magic_number namedatalen)) [
    | inl e ↦ (
      ap some (strncmp_eq→eq t cstore_magic_number namedatalen (omega arith) e),
      ok-injective (rw e at h),
    )
    | inr e ↦ (let stopped = (rw e at h) in cc)
  ]

  accepted_only :
      (m : Protobuf.PostScript) (buffer : List ℕ) (n : ℕ)
      → protobuf.post_script_unpack buffer ≡ some m
      → deserialize_post_script protobuf buffer ≡ ok n
      → (default_to 0 m.versionmajor ≡ 1)
        × (default_to 0 m.versionminor ≤ 7)
        × (m.magicnumber ≡ some cstore_magic_number)
        × (default_to 0 m.tablefooterlength ≡ n)
  unfolding deserialize_post_script
  accepted_only m buffer n e h =
      let bad =
        not (default_to 0 m.versionmajor == cstore_version_major)
        || ltb cstore_version_minor (default_to 0 m.versionminor) in
      elim (Bool-cases bad) [
        | inl wrong ↦ (let stopped = (rw (e, wrong) at h) in cc)
        | inr right ↦
            let rest =
              magic_of m.magicnumber n (default_to 0 m.tablefooterlength) (rw (e, right) at h) in
            (ground (arith, right), ground (arith, right), rest.0, rest.1)
      ]

  accepts :
      (m : Protobuf.PostScript) (buffer : List ℕ) (n : ℕ)
      → protobuf.post_script_unpack buffer ≡ some m
      → (default_to 0 m.versionmajor ≡ 1)
        × (default_to 0 m.versionminor ≤ 7)
        × (m.magicnumber ≡ some cstore_magic_number)
        × (default_to 0 m.tablefooterlength ≡ n)
      → deserialize_post_script protobuf buffer ≡ ok n
  unfolding deserialize_post_script strncmp_eq
  accepts m buffer n e (major, minor, magic, l) =
      let right : (not (default_to 0 m.versionmajor == cstore_version_major)
            || ltb cstore_version_minor (default_to 0 m.versionminor))
          ≡ false =
        ground (arith, major, minor) in
      rw (e, right, magic) (ap ok l)

  -- A postscript is accepted exactly if its major version is 1, its minor version at most 7, and its
  -- magic number is there and is that of cstore, and then gives the length of the table footer, 0 if
  -- that is absent.
  pub deserialize_post_script_iff :
      (m : Protobuf.PostScript) (buffer : List ℕ) (n : ℕ)
      → protobuf.post_script_unpack buffer ≡ some m
      → (deserialize_post_script protobuf buffer ≡ ok n) ↔ (
          (default_to 0 m.versionmajor ≡ 1)
          × (default_to 0 m.versionminor ≤ 7)
          × (m.magicnumber ≡ some cstore_magic_number)
          × (default_to 0 m.tablefooterlength ≡ n))
  deserialize_post_script_iff m buffer n e = (accepted_only m buffer n e, accepts m buffer n e)

  -- A table footer that is read has a block row count from 1000 to 100000.
  pub deserialize_table_footer_rows :
      (buffer : List ℕ) (f : TableFooter)
      → deserialize_table_footer protobuf buffer ≡ ok f
      → (1000 ≤ f.block_row_count) × (f.block_row_count ≤ 100000)
  unfolding deserialize_table_footer
  deserialize_table_footer_rows buffer f h = ground arith
