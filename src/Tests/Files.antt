-- ===== src/Tests/Files.antt =====
-- The theorems on skip lists and on the footer file, at concrete inputs.
use cstore_fdw.Prelude.{ℕ, ◌≡◌, refl, true, false, some, List, [], ◌∷◌, arith, All}
use cstore_fdw.Result.{ok, err, invalid_cstore_file, invalid_postscript_size}
use cstore_fdw.Types.{ColumnBlockSkipNode}
use cstore_fdw.Compression.{compression_none, compression_pg_lz}
use cstore_fdw.Disk.{Disk}
use cstore_fdw.Metadata.{serialize_post_script, serialize_table_footer}
use cstore_fdw.Metadata.SkipList.{
  serialize_column_skip_list, deserialize_column_skip_list, deserialize_block_count,
  deserialize_row_count,
}
use cstore_fdw.Metadata.SkipList.RoundTrip.{
  IsSkipNode, deserialize-serialize_column_skip_list, deserialize_counts,
}
use cstore_fdw.FooterFile.Write.{write_footer}
use cstore_fdw.FooterFile.Read.{read_footer}
use cstore_fdw.FooterFile.RoundTrip.{read-write_footer, read_footer_short}
use cstore_fdw.Tests.Parameters.{macros, laws, protobuf, protobuf_laws}
use cstore_fdw.Tests.Formats.{text_column, footer}

abbrev pub nodes : List (ColumnBlockSkipNode (List ℕ))
nodes =
    record {
      has_min_max = true;
      minimum_value = 2 ∷ 5 ∷ [];
      maximum_value = 3 ∷ 9 ∷ 1 ∷ [];
      row_count = 1000;
      exists_block_offset = 0;
      value_block_offset = 0;
      exists_length = 125;
      value_length = 4000;
      value_compression_type = compression_pg_lz;
    }
    ∷ record {
      has_min_max = false;
      minimum_value = [];
      maximum_value = [];
      row_count = 17;
      exists_block_offset = 125;
      value_block_offset = 4000;
      exists_length = 3;
      value_length = 0;
      value_compression_type = compression_none;
    }
    ∷ []

pub nodes-IsSkipNode : All (IsSkipNode macros laws text_column) nodes
nodes-IsSkipNode = (
  record {
    min_max = ((refl, omega arith, omega arith), (refl, omega arith, omega arith));
    compression = λ e. cc;
    rows_fit = omega arith;
    value_offset_fits = omega arith;
    value_length_fits = omega arith;
    exists_offset_fits = omega arith;
    exists_length_fits = omega arith;
  },
  (
    record {
      min_max = (refl, refl);
      compression = λ e. cc;
      rows_fit = omega arith;
      value_offset_fits = omega arith;
      value_length_fits = omega arith;
      exists_offset_fits = omega arith;
      exists_length_fits = omega arith;
    },
    tt,
  ),
)

skip_list_example :
    deserialize_column_skip_list macros protobuf
      (serialize_column_skip_list macros protobuf nodes 2 false (text_column.attlen))
      false
      (text_column.attlen)
      2
    ≡ ok nodes
skip_list_example =
    deserialize-serialize_column_skip_list macros laws protobuf text_column protobuf_laws nodes 2
      nodes-IsSkipNode

counts_example :
    let buffer = serialize_column_skip_list macros protobuf nodes 2 false (text_column.attlen) in
    (deserialize_block_count macros protobuf buffer ≡ ok 2)
    × (deserialize_row_count macros protobuf buffer ≡ ok 1017)
counts_example =
    deserialize_counts macros laws protobuf text_column protobuf_laws nodes nodes-IsSkipNode
      (omega arith)

abbrev pub disk : Disk
disk = record {
  data_file = some (4 ∷ 5 ∷ []);
  footer_file = some (1 ∷ []);
  temp_footer_file = some (6 ∷ 6 ∷ 6 ∷ []);
  credit = 7;
}

footer_file_example :
    let (r, d) = write_footer protobuf footer disk in
    (r ≡ ok tt)
    × (read_footer protobuf d.temp_footer_file ≡ ok footer)
    × (d.data_file ≡ some (4 ∷ 5 ∷ []))
    × (d.footer_file ≡ some (1 ∷ []))
unfolding serialize_post_script serialize_table_footer
footer_file_example =
    read-write_footer protobuf protobuf_laws footer disk
      (record { stripes = omega arith; rows_min = omega arith; rows_max = omega arith })
      (record { postscript_small = omega arith; footer_small = omega arith }) (omega arith)

short_example :
    (read_footer protobuf (some []) ≡ err invalid_cstore_file)
    × (read_footer protobuf (some (7 ∷ 8 ∷ 9 ∷ 4 ∷ [])) ≡ err invalid_postscript_size)
short_example =
    read_footer_short protobuf protobuf_laws (7 ∷ 8 ∷ 9 ∷ []) 4 (omega arith) (omega arith)
