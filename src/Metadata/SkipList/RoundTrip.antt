-- ===== src/Metadata/SkipList/RoundTrip.antt =====
-- Column skip lists are read back as they were written, whole or only for their counts.
use cstore_fdw.Prelude.{
  ℕ, ◌+◌, ◌%◌, ◌^◌, ◌<◌, ◌≡◌, refl, ap, ◌≢◌, Bool, true, false, if◌then◌else◌, some, List, [], ◌∷◌,
  map, arith, length, All, take-all, length-map, ◌==◌,
}
use cstore_fdw.Result.{ok, err, block_count_mismatch}
use cstore_fdw.Postgres.{Attribute, TupleMacros, TupleMacroLaws}
use cstore_fdw.Datum.RoundTrip.{binary_to_datum-to_binary}
use cstore_fdw.Compression.{
  CompressionType, compression_type_invalid, compression_none, compression_pg_lz,
}
use cstore_fdw.Protobuf
use cstore_fdw.Protobuf.{Protobuf, ProtobufLaws, IsU64, FitsNode}
use cstore_fdw.Types.{ColumnBlockSkipNode}
use cstore_fdw.Metadata.SkipList.{
  compression_code, compression_of, protobuf_node, serialize_column_skip_list,
  deserialize_block_count, sum_row_counts, deserialize_row_count, read_node, read_nodes,
  deserialize_column_skip_list,
}

compression_of-code :
    (c : CompressionType) → c ≢ compression_type_invalid → compression_of (compression_code c) ≡ c
compression_of-code compression_type_invalid h = absurd (h refl)
compression_of-code compression_none h = refl
compression_of-code compression_pg_lz h = refl

-- The number of rows of a column's blocks.
abbrev pub total_rows : {Datum : Type 0} → List (ColumnBlockSkipNode Datum) → ℕ
total_rows [] = 0
total_rows (n ∷ ns) = n.row_count + total_rows ns

module _ (macros : TupleMacros) (laws : TupleMacroLaws macros) where
  open macros use {Datum, zero_datum}
  open laws use {IsValue}

  -- A minimum and a maximum are values of the column's type, or both are the Datum 0.
  abbrev pub IsMinMax : Attribute → Bool → Datum → Datum → Type 0
  IsMinMax a true low high = IsValue a low × IsValue a high
  IsMinMax a false low high = (low ≡ zero_datum) × (high ≡ zero_datum)

  -- A node as the extension makes it for a column.
  pub record IsSkipNode (a : Attribute) (n : ColumnBlockSkipNode Datum) : Type 0 where
    pub min_max : IsMinMax a n.has_min_max n.minimum_value n.maximum_value
    pub compression : n.value_compression_type ≢ compression_type_invalid
    pub rows_fit : IsU64 n.row_count
    pub value_offset_fits : IsU64 n.value_block_offset
    pub value_length_fits : IsU64 n.value_length
    pub exists_offset_fits : IsU64 n.exists_block_offset
    pub exists_length_fits : IsU64 n.exists_length

  module _ (protobuf : Protobuf) (a : Attribute) where
    abbrev node_message : ColumnBlockSkipNode Datum → Protobuf.ColumnBlockSkipNode
    node_message = protobuf_node macros protobuf a.attbyval a.attlen

    FitsNode-message :
        (ns : List (ColumnBlockSkipNode Datum))
        → All (IsSkipNode a) ns
        → All FitsNode (map node_message ns)
    unfolding protobuf_node
    FitsNode-message [] h = tt
    FitsNode-message (n ∷ ns) h = (
      (
        h.0.rows_fit, h.0.value_offset_fits, h.0.value_length_fits, h.0.exists_offset_fits,
        h.0.exists_length_fits,
      ),
      FitsNode-message ns h.1,
    )

    read_node-message :
        (n : ColumnBlockSkipNode Datum)
        → IsSkipNode a n
        → read_node macros protobuf a.attbyval a.attlen (node_message n) ≡ ok n
    unfolding protobuf_node read_node
    read_node-message n h = ground (
      arith,
      compression_of-code n.value_compression_type h.compression,
      h.min_max,
      binary_to_datum-to_binary macros laws a n.minimum_value,
      binary_to_datum-to_binary macros laws a n.maximum_value,
    )

    read_nodes-message :
        (ns : List (ColumnBlockSkipNode Datum))
        → All (IsSkipNode a) ns
        → read_nodes macros protobuf a.attbyval a.attlen (map node_message ns) ≡ ok ns
    unfolding read_nodes
    read_nodes-message [] h = refl
    read_nodes-message (n ∷ ns) h = rw (read_node-message n h.0, read_nodes-message ns h.1)

    sum-message :
        (total : ℕ) (ns : List (ColumnBlockSkipNode Datum))
        → total < 2 ^ 32
        → sum_row_counts macros protobuf total (map node_message ns)
          ≡ (total + total_rows ns) % 2 ^ 32
    unfolding sum_row_counts protobuf_node
    sum-message total [] h = omega arith
    sum-message total (n ∷ ns) h =
        omega (arith, sum-message ((total + n.row_count) % 2 ^ 32) ns (omega arith))

    module _ (protobuf_laws : ProtobufLaws protobuf) where
      unpacked :
          (ns : List (ColumnBlockSkipNode Datum))
          → All (IsSkipNode a) ns
          → protobuf.column_block_skip_list_unpack
              (serialize_column_skip_list macros protobuf ns (length ns) a.attbyval a.attlen)
            ≡ some (map node_message ns)
      unfolding serialize_column_skip_list
      unpacked ns h =
          rw (take-all (length ns) ns (omega arith), serialize_column_skip_list)
            (protobuf_laws.column_block_skip_list (map node_message ns) (FitsNode-message ns h))

      -- The skip list of a column is read back node by node, and refused where another number of
      -- blocks is expected.
      pub deserialize-serialize_column_skip_list :
          (ns : List (ColumnBlockSkipNode Datum)) (block_count : ℕ)
          → All (IsSkipNode a) ns
          → deserialize_column_skip_list macros protobuf
              (serialize_column_skip_list macros protobuf ns (length ns) a.attbyval a.attlen)
              a.attbyval
              a.attlen
              block_count
            ≡ (if length ns == block_count then ok ns else err block_count_mismatch)
      unfolding deserialize_column_skip_list
      deserialize-serialize_column_skip_list ns block_count h =
          rw (unpacked ns h, deserialize_column_skip_list)
            (ground (arith, length-map node_message ns, read_nodes-message ns h))

      -- A skip list read only for its counts gives the number of its blocks and the sum of their
      -- rows, each cut to 32 bits, if it has fewer than 2 ^ 32 blocks.
      pub deserialize_counts :
          (ns : List (ColumnBlockSkipNode Datum))
          → All (IsSkipNode a) ns
          → length ns < 2 ^ 32
          → let buffer =
              serialize_column_skip_list macros protobuf ns (length ns) a.attbyval a.attlen in
            (deserialize_block_count macros protobuf buffer ≡ ok (length ns))
            × (deserialize_row_count macros protobuf buffer ≡ ok (total_rows ns % 2 ^ 32))
      unfolding deserialize_block_count deserialize_row_count
      deserialize_counts ns h small = (
        rw (unpacked ns h, deserialize_block_count) (ap ok whole),
        rw (unpacked ns h, deserialize_row_count)
            (ap ok (
              rw
                (
                  whole,
                  take-all (length ns) (map node_message ns)
                      (omega (arith, length-map node_message ns)),
                )
                (omega (arith, sum-message 0 ns (omega arith))))),
      )
        where
          whole : length (map node_message ns) % 2 ^ 32 ≡ length ns
          whole = omega (arith, length-map node_message ns)
