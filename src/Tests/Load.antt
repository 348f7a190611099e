-- ===== src/Tests/Load.antt =====
-- The theorems on a load, at concrete inputs.
use cstore_fdw.Prelude.{
  ◌≢◌, false, length, replicate, length-replicate, All-replicate, Option, ℕ, ◌-◌, ◌≡◌, refl, true,
  none, some, List, [], ◌∷◌, arith, get_or, ltb, if◌then◌else◌, take, All,
}
use cstore_fdw.Prelude.Int.{ℤ, pos, negsuc}
use cstore_fdw.Result.{ok, err, Error}
use cstore_fdw.Types.{TableFooter, empty_skip_node}
use cstore_fdw.Compression.{compression_none, compression_pg_lz}
use cstore_fdw.SkipNode.{Comparison}
use cstore_fdw.SkipNode.MinMax.{ComparisonLaws, update_all, Bounds, update_all-Bounds}
use cstore_fdw.Disk.{Disk, content_of, call}
use cstore_fdw.Metadata.{serialize_post_script, serialize_table_footer}
use cstore_fdw.FooterFile.RoundTrip.{file_bytes, read_footer-file_bytes}
use cstore_fdw.Writer.{WriteColumn, TableWriteState}
use cstore_fdw.Writer.Invariant.Stripes.{OnlyWrites}
use cstore_fdw.Writer.Invariant.Rows.{IsBetween, write_rows-OnlyWrites}
use cstore_fdw.Writer.Invariant.Begin.{begin_write-IsBetween}
use cstore_fdw.Writer.Invariant.Overrun.Load.{load-overrun}
use cstore_fdw.Writer.Rows.{load, begin_write, open_table, write_rows, end_of_stripes}
use cstore_fdw.Writer.Safety.Load.{load-Safe}
use cstore_fdw.Tests.Parameters.{macros, laws, pglz, protobuf, protobuf_laws}
use cstore_fdw.Tests.Formats.{text_column}

-- Values are compared by their first byte.
abbrev difference : ℕ → ℕ → ℤ
difference a b = if ltb a b then negsuc 0 else pos (a - b)

abbrev by_first_byte : Comparison (List ℕ)
by_first_byte collation x y = difference (get_or x 1 0) (get_or y 1 0)

by_first_byte_laws : ComparisonLaws macros laws text_column by_first_byte
by_first_byte_laws = record {
  reflexive = λ x v. ground arith;
  opposite = λ x y v w. ground arith;
  transitive = λ x y z u v w h k. ground arith;
}

min_max_example :
    let node =
      update_all macros laws text_column by_first_byte by_first_byte_laws
        (empty_skip_node [])
        ((2 ∷ 5 ∷ []) ∷ (3 ∷ 9 ∷ 1 ∷ []) ∷ (2 ∷ 4 ∷ []) ∷ []) in
    (node.has_min_max ≡ true)
    × (laws.IsValue text_column node.minimum_value)
    × (laws.IsValue text_column node.maximum_value)
    × All
        (Bounds macros laws text_column by_first_byte by_first_byte_laws node)
        ((2 ∷ 5 ∷ []) ∷ (3 ∷ 9 ∷ 1 ∷ []) ∷ (2 ∷ 4 ∷ []) ∷ [])
min_max_example =
    update_all-Bounds macros laws text_column by_first_byte by_first_byte_laws (2 ∷ 5 ∷ [])
      ((3 ∷ 9 ∷ 1 ∷ []) ∷ (2 ∷ 4 ∷ []) ∷ []) (refl, omega arith, omega arith)
      ((refl, omega arith, omega arith), ((refl, omega arith, omega arith), tt))

abbrev one_stripe : TableFooter
one_stripe = record {
  stripe_metadata_list =
      record { file_offset = 0; skip_list_length = 1; data_length = 2; footer_length = 1 } ∷ [];
  block_row_count = 1000;
}

-- It has bytes of an aborted load behind its stripe, and room for one more write.
abbrev nearly_full : Disk
nearly_full = record {
  data_file = some (1 ∷ 2 ∷ 3 ∷ 4 ∷ 5 ∷ 6 ∷ []);
  footer_file = some (file_bytes protobuf protobuf_laws one_stripe);
  temp_footer_file = none;
  credit = 1;
}

load_example :
    let (r, d) =
      load macros pglz protobuf compression_none 1000 1000
        (text_column ∷ [])
        (λ oid. none)
        ((some (2 ∷ 7 ∷ []) ∷ []) ∷ (none ∷ []) ∷ [])
        nearly_full in
    (take 4 (content_of d.data_file) ≡ 1 ∷ 2 ∷ 3 ∷ 4 ∷ [])
    × ((e : Error) → r ≡ err e → d.footer_file ≡ nearly_full.footer_file)
unfolding serialize_post_script serialize_table_footer end_of_stripes
load_example =
    load-Safe macros pglz protobuf compression_none 1000 1000 (text_column ∷ []) (λ oid. none)
      ((some (2 ∷ 7 ∷ []) ∷ []) ∷ (none ∷ []) ∷ []) nearly_full one_stripe
      (1 ∷ 2 ∷ 3 ∷ 4 ∷ 5 ∷ 6 ∷ [])
      (read_footer-file_bytes protobuf protobuf_laws one_stripe
        (record { stripes = omega arith; rows_min = omega arith; rows_max = omega arith })
        (record { postscript_small = omega arith; footer_small = omega arith }))
      refl (omega arith)

-- A new load of one column, over blocks of 1000 rows.
abbrev column : WriteColumn (List ℕ)
column = record {
  attribute = text_column;
  comparison = some by_first_byte;
  exists_array = replicate 1000 false;
  value_buffer = none;
  skip_nodes = [];
  block_buffers = [];
}

abbrev new_load : TableWriteState (List ℕ)
new_load = record {
  position = 0;
  table_footer = record { stripe_metadata_list = []; block_row_count = 1000 };
  compression_type = compression_pg_lz;
  current_file_offset = 0;
  stripe_max_row_count = 1000;
  columns = column ∷ [];
  stripe = none;
}

new_load-IsBetween : IsBetween 1 new_load
new_load-IsBetween = (
  record {
    block_min = omega arith;
    block_max = omega arith;
    stripe_max = omega arith;
    stripe_min = omega arith;
    exists_sized = (length-replicate 1000 false, tt);
    wide = refl;
  },
  tt,
)

-- It fills a stripe and begins another one.
abbrev many_rows : List (List (Option (List ℕ)))
many_rows = replicate 1500 (some (2 ∷ 7 ∷ []) ∷ [])

rows_example : OnlyWrites (write_rows macros pglz protobuf new_load many_rows) (IsBetween 1)
rows_example = write_rows-OnlyWrites macros pglz protobuf 1 new_load many_rows new_load-IsBetween (
    All-replicate (λ (row : List (Option (List ℕ))). length row ≡ 1) 1500 (some (2 ∷ 7 ∷ []) ∷ [])
      refl)

abbrev empty_disk : Disk
empty_disk = record { data_file = none; footer_file = none; temp_footer_file = none; credit = 9 }

begin_example : IsBetween 1 (record new_load { columns = record column { comparison = none } ∷ [] })
unfolding begin_write open_table end_of_stripes call
begin_example =
    begin_write-IsBetween macros pglz protobuf compression_pg_lz 1000 1000 (text_column ∷ [])
      (λ oid. none) empty_disk
      (record { data_file = some []; footer_file = none; temp_footer_file = none; credit = 8 })
      (record new_load { columns = record column { comparison = none } ∷ [] }) refl (omega arith)
      (omega arith) (omega arith) (omega arith) refl

-- The table has blocks of 2000 rows, and the option was lowered to 1000.
abbrev longer_blocks : TableFooter
longer_blocks = record { stripe_metadata_list = []; block_row_count = 2000 }

abbrev with_longer_blocks : Disk
with_longer_blocks = record {
  data_file = some [];
  footer_file = some (file_bytes protobuf protobuf_laws longer_blocks);
  temp_footer_file = none;
  credit = 100;
}

overrun_example :
    (load macros pglz protobuf compression_none 5000 1000
      (text_column ∷ [])
      (λ oid. none)
      many_rows
      with_longer_blocks).0
    ≢ ok tt
overrun_example =
    load-overrun macros pglz protobuf compression_none 5000 1000 text_column [] (λ oid. none)
      many_rows with_longer_blocks longer_blocks
      (read_footer-file_bytes protobuf protobuf_laws longer_blocks
        (record { stripes = tt; rows_min = omega arith; rows_max = omega arith })
        (record {
          postscript_small = (unfold serialize_post_script in omega arith);
          footer_small = (unfold serialize_table_footer in omega arith);
        }))
      (omega arith) (omega arith) (omega arith) (omega arith)
      (omega (arith, length-replicate {A = List (Option (List ℕ))} 1500 (some (2 ∷ 7 ∷ []) ∷ [])))
