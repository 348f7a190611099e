-- ===== src/Metadata.antt =====
-- cstore_metadata_serialization.c: postscripts, table footers, stripe footers and column skip lists
-- as protobuf messages. The generated packing code is the parameter `protobuf`.
pub mod SkipList
pub mod Footers
use cstore_fdw.Prelude.{
  ℕ, zero, suc, ◌+◌, ◌%◌, ◌^◌, Bool, true, false, not, ◌&&◌, ◌||◌, Option, none, some, List, [],
  ◌∷◌, map, ltb, ◌==◌, if◌then◌else◌, length, take,
}
use cstore_fdw.Result.{
  Result, ok, err, invalid_postscript_buffer, invalid_version_number, invalid_magic_number,
  invalid_table_footer_buffer, missing_footer_fields, invalid_block_row_count,
  missing_stripe_fields, invalid_stripe_footer_buffer, size_arrays_mismatch, fault, require,
  fail_if, ◌>>=◌, ◌>>◌,
}
use cstore_fdw.CString.{Text, codes, strncmp_eq, namedatalen}
use cstore_fdw.Options.{block_row_count_minimum, block_row_count_maximum}
use cstore_fdw.Protobuf
use cstore_fdw.Protobuf.{Protobuf}
use cstore_fdw.Types.{StripeMetadata, TableFooter, StripeFooter}

abbrev pub cstore_version_major : ℕ
cstore_version_major = 1

abbrev pub cstore_version_minor : ℕ
cstore_version_minor = 7

abbrev pub cstore_magic_number : Text
cstore_magic_number = codes "citus_cstore"

-- Reading an optional number that is absent gives its default, 0.
abbrev pub default_to {ℓ} : {A : Type ℓ} → A → Option A → A
default_to d none = d
default_to d (some a) = a

abbrev pub is_none {ℓ} : {A : Type ℓ} → Option A → Bool
is_none none = true
is_none (some a) = false

abbrev pub post_script_of : ℕ → Protobuf.PostScript
post_script_of table_footer_length = record {
  tablefooterlength = some table_footer_length;
  versionmajor = some cstore_version_major;
  versionminor = some cstore_version_minor;
  magicnumber = some cstore_magic_number;
}

abbrev pub protobuf_stripe : StripeMetadata → Protobuf.StripeMetadata
protobuf_stripe s = record {
  fileoffset = some s.file_offset;
  skiplistlength = some s.skip_list_length;
  datalength = some s.data_length;
  footerlength = some s.footer_length;
}

abbrev pub protobuf_footer : TableFooter → Protobuf.TableFooter
protobuf_footer f = record {
  stripemetadataarray = map protobuf_stripe f.stripe_metadata_list;
  blockrowcount = some (f.block_row_count % 2 ^ 32);
}

abbrev pub protobuf_stripe_footer : StripeFooter → Protobuf.StripeFooter
protobuf_stripe_footer f = record {
  skiplistsizearray = take f.column_count f.skip_list_sizes;
  existssizearray = take f.column_count f.exists_sizes;
  valuesizearray = take f.column_count f.value_sizes;
}

-- one round of the loop over the stripes of a footer
pub read_stripe : Protobuf.StripeMetadata → Result StripeMetadata
read_stripe m = do
  file_offset ← require m.fileoffset missing_stripe_fields
  skip_list_length ← require m.skiplistlength missing_stripe_fields
  data_length ← require m.datalength missing_stripe_fields
  footer_length ← require m.footerlength missing_stripe_fields
  ok (record {
    file_offset = file_offset;
    skip_list_length = skip_list_length;
    data_length = data_length;
    footer_length = footer_length;
  })

pub read_stripes : List Protobuf.StripeMetadata → Result (List StripeMetadata)
unfolding read_stripe
read_stripes [] = ok []
read_stripes (m ∷ ms) = do s ← read_stripe m; rest ← read_stripes ms; ok (s ∷ rest)

module _ (protobuf : Protobuf) where
  unfoldable pub serialize_post_script : ℕ → List ℕ
  serialize_post_script table_footer_length =
      protobuf.post_script_pack (post_script_of table_footer_length)

  unfoldable pub serialize_table_footer : TableFooter → List ℕ
  serialize_table_footer footer = protobuf.table_footer_pack (protobuf_footer footer)

  unfoldable pub serialize_stripe_footer : StripeFooter → List ℕ
  serialize_stripe_footer footer = protobuf.stripe_footer_pack (protobuf_stripe_footer footer)

  unfoldable pub deserialize_post_script : List ℕ → Result ℕ
  deserialize_post_script buffer = do
    p ← require (protobuf.post_script_unpack buffer) invalid_postscript_buffer
    fail_if
        (not (default_to 0 p.versionmajor == cstore_version_major)
          || ltb cstore_version_minor (default_to 0 p.versionminor))
        invalid_version_number
    magic ← require p.magicnumber fault
    fail_if (not (strncmp_eq magic cstore_magic_number namedatalen)) invalid_magic_number
    ok (default_to 0 p.tablefooterlength)

  unfoldable pub deserialize_table_footer : List ℕ → Result TableFooter
  unfolding read_stripes
  deserialize_table_footer buffer = do
    p ← require (protobuf.table_footer_unpack buffer) invalid_table_footer_buffer
    block_row_count ← require p.blockrowcount missing_footer_fields
    fail_if
        (ltb block_row_count block_row_count_minimum || ltb block_row_count_maximum block_row_count)
        invalid_block_row_count
    stripes ← read_stripes p.stripemetadataarray
    ok (record { stripe_metadata_list = stripes; block_row_count = block_row_count })

  -- `columnCount` is a `uint32`.
  unfoldable pub deserialize_stripe_footer : List ℕ → Result StripeFooter
  deserialize_stripe_footer buffer = do
    p ← require (protobuf.stripe_footer_unpack buffer) invalid_stripe_footer_buffer
    let column_count = length p.skiplistsizearray % 2 ^ 32
    fail_if
        (not (length p.existssizearray == column_count)
          || not (length p.valuesizearray == column_count))
        size_arrays_mismatch
    ok (record {
      column_count = column_count;
      skip_list_sizes = take column_count p.skiplistsizearray;
      exists_sizes = take column_count p.existssizearray;
      value_sizes = take column_count p.valuesizearray;
    })
