-- ===== src/Tests/Formats.antt =====
-- The theorems on the byte formats, at concrete inputs.
use cstore_fdw.Prelude.{
  ◌≤◌, ◌↔◌, ℕ, ◌≡◌, refl, Bool, true, false, Option, none, some, List, [], ◌∷◌, ◌++◌, arith, take,
}
use cstore_fdw.Prelude.Int.{pos, negsuc}
use cstore_fdw.Result.{ok}
use cstore_fdw.Postgres.{Attribute}
use cstore_fdw.Types.{StripeMetadata, TableFooter, StripeFooter}
use cstore_fdw.BoolArray.{serialize_bool_array, deserialize_bool_array}
use cstore_fdw.BoolArray.RoundTrip.{deserialize-serialize_bool_array}
use cstore_fdw.Datum.{append_datum, deserialize_datum_array}
use cstore_fdw.Datum.RoundTrip.{serialize_cells, deserialize-serialize_cells}
use cstore_fdw.Compression.{compression_pg_lz, compress_buffer, decompress_buffer}
use cstore_fdw.Compression.RoundTrip.{chosen, decompress-compress_buffer}
use cstore_fdw.Protobuf
use cstore_fdw.Metadata.{
  default_to, cstore_magic_number, deserialize_table_footer, serialize_table_footer,
  deserialize_stripe_footer, serialize_stripe_footer, deserialize_post_script,
}
use cstore_fdw.Metadata.Footers.{
  deserialize-serialize_table_footer, deserialize-serialize_stripe_footer,
  deserialize_post_script_iff,
}
use cstore_fdw.Tests.Parameters.{macros, laws, pglz, pglz_laws, protobuf, protobuf_laws}

abbrev bits : List Bool
bits = true ∷ false ∷ true ∷ true ∷ false ∷ false ∷ false ∷ false ∷ false ∷ true ∷ []

abbrev zeros : List Bool
zeros = false ∷ false ∷ false ∷ false ∷ false ∷ false ∷ false ∷ false ∷ false ∷ false ∷ true ∷ []

bits_written : serialize_bool_array bits 10 ≡ 13 ∷ 2 ∷ []
unfolding serialize_bool_array
bits_written = refl

bool_array_example :
    deserialize_bool_array (serialize_bool_array bits 10) zeros 10 ≡ ok (take 10 bits ++ true ∷ [])
bool_array_example =
    deserialize-serialize_bool_array bits zeros 10 (omega arith) (omega arith) (omega arith)

-- a type of variable length and 4-byte alignment, and a one-byte integer
abbrev pub text_column : Attribute
text_column = record {
  attnum = 1;
  atttypid = 25;
  atttypmod = 0;
  attcollation = 0;
  attbyval = false;
  attlen = negsuc 0;
  attalign = b'i';
  atthasdef = false;
  attisdropped = false;
}

abbrev pub byte_column : Attribute
byte_column = record {
  attnum = 2;
  atttypid = 18;
  atttypmod = 0;
  attcollation = 0;
  attbyval = true;
  attlen = pos 1;
  attalign = b'c';
  atthasdef = false;
  attisdropped = false;
}

abbrev cells : List (Option (List ℕ))
cells = some (3 ∷ 7 ∷ 8 ∷ []) ∷ none ∷ some (1 ∷ []) ∷ some (5 ∷ 1 ∷ 2 ∷ 3 ∷ 4 ∷ []) ∷ []

cells_written :
    serialize_cells macros laws text_column [] cells
    ≡ 3 ∷ 7 ∷ 8 ∷ 0 ∷ 1 ∷ 0 ∷ 0 ∷ 0 ∷ 5 ∷ 1 ∷ 2 ∷ 3 ∷ 4 ∷ 0 ∷ 0 ∷ 0 ∷ []
unfolding append_datum
cells_written = refl

datum_array_example :
    deserialize_datum_array macros
      (serialize_cells macros laws text_column [] cells)
      (true ∷ false ∷ true ∷ true ∷ false ∷ [])
      4
      false
      (negsuc 0)
      b'i'
      ([] ∷ (9 ∷ []) ∷ [] ∷ [] ∷ [])
    ≡ ok ((3 ∷ 7 ∷ 8 ∷ []) ∷ (9 ∷ []) ∷ (1 ∷ []) ∷ (5 ∷ 1 ∷ 2 ∷ 3 ∷ 4 ∷ []) ∷ [])
unfolding append_datum
datum_array_example =
    deserialize-serialize_cells macros laws text_column cells
      (true ∷ false ∷ true ∷ true ∷ false ∷ []) ([] ∷ (9 ∷ []) ∷ [] ∷ [] ∷ []) (omega arith) refl
      (omega arith) (omega arith)

compression_example :
    let (bytes, stored_type) =
      chosen (1 ∷ 2 ∷ 3 ∷ []) (compress_buffer pglz (1 ∷ 2 ∷ 3 ∷ []) (9 ∷ []) compression_pg_lz) in
    decompress_buffer pglz bytes stored_type ≡ ok (some (1 ∷ 2 ∷ 3 ∷ []))
compression_example =
    decompress-compress_buffer pglz pglz_laws (1 ∷ 2 ∷ 3 ∷ []) (9 ∷ []) compression_pg_lz
      (omega arith)

abbrev pub stripes : List StripeMetadata
stripes =
    record { file_offset = 0; skip_list_length = 10; data_length = 20; footer_length = 5 }
    ∷ record { file_offset = 35; skip_list_length = 11; data_length = 21; footer_length = 6 }
    ∷ []

abbrev pub footer : TableFooter
footer = record { stripe_metadata_list = stripes; block_row_count = 10000 }

table_footer_example :
    deserialize_table_footer protobuf (serialize_table_footer protobuf footer) ≡ ok footer
table_footer_example =
    deserialize-serialize_table_footer protobuf protobuf_laws footer
      (record { stripes = omega arith; rows_min = omega arith; rows_max = omega arith })

abbrev stripe_footer : StripeFooter
stripe_footer = record {
  column_count = 2;
  skip_list_sizes = 4 ∷ 6 ∷ [];
  exists_sizes = 1 ∷ 1 ∷ [];
  value_sizes = 8 ∷ 16 ∷ [];
}

stripe_footer_example :
    deserialize_stripe_footer protobuf (serialize_stripe_footer protobuf stripe_footer)
    ≡ ok stripe_footer
stripe_footer_example =
    deserialize-serialize_stripe_footer protobuf protobuf_laws stripe_footer (omega arith)

abbrev later_version : Protobuf.PostScript
later_version = record {
  tablefooterlength = some 3;
  versionmajor = some 1;
  versionminor = some 8;
  magicnumber = none;
}

abbrev earlier_version : Protobuf.PostScript
earlier_version = record {
  tablefooterlength = some 5;
  versionmajor = some 1;
  versionminor = some 6;
  magicnumber = some cstore_magic_number;
}

post_script_example :
    (deserialize_post_script protobuf (protobuf.post_script_pack earlier_version) ≡ ok 5) ↔ (
      (default_to 0 earlier_version.versionmajor ≡ 1)
      × (default_to 0 earlier_version.versionminor ≤ 7)
      × (earlier_version.magicnumber ≡ some cstore_magic_number)
      × (default_to 0 earlier_version.tablefooterlength ≡ 5))
post_script_example =
    deserialize_post_script_iff protobuf protobuf_laws earlier_version
      (protobuf.post_script_pack earlier_version) 5 refl
