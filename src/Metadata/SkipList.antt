-- ===== src/Metadata/SkipList.antt =====
-- Column skip lists (cstore_metadata_serialization.c): `SerializeColumnSkipList`,
-- `DeserializeBlockCount`, `DeserializeRowCount` and `DeserializeColumnSkipList`.
pub mod RoundTrip
use cstore_fdw.Prelude.{
  ℕ, zero, suc, ◌+◌, ◌%◌, ◌^◌, Bool, true, false, not, Option, none, some, List, [], ◌∷◌, map, ◌==◌,
  if◌then◌else◌, length, take,
}
use cstore_fdw.Prelude.Int.{ℤ, pos, negsuc}
use cstore_fdw.Result.{
  Result, ok, err, invalid_skip_list_buffer, block_count_mismatch, missing_skip_node_fields,
  min_max_mismatch, require, fail_if, ◌>>=◌, ◌>>◌,
}
use cstore_fdw.Postgres.{TupleMacros}
use cstore_fdw.Datum.{datum_to_protobuf_binary, protobuf_binary_to_datum}
use cstore_fdw.Compression.{
  CompressionType, compression_type_invalid, compression_none, compression_pg_lz,
}
use cstore_fdw.Protobuf
use cstore_fdw.Protobuf.{Protobuf}
use cstore_fdw.Types.{ColumnBlockSkipNode}

-- the values of the enumeration
abbrev pub compression_code : CompressionType → ℤ
compression_code compression_type_invalid = negsuc 0
compression_code compression_none = pos 0
compression_code compression_pg_lz = pos 1

-- A value that is no compression type behaves as the invalid one.
abbrev pub compression_of : ℤ → CompressionType
compression_of (pos zero) = compression_none
compression_of (pos (suc zero)) = compression_pg_lz
compression_of _ = compression_type_invalid

module _ (macros : TupleMacros) (protobuf : Protobuf) where
  open macros use {Datum, zero_datum}

  pub protobuf_node : Bool → ℤ → ColumnBlockSkipNode Datum → Protobuf.ColumnBlockSkipNode
  protobuf_node by_value type_length n = record {
    rowcount = some n.row_count;
    minimumvalue =
        if n.has_min_max
        then some (datum_to_protobuf_binary macros n.minimum_value by_value type_length)
        else none;
    maximumvalue =
        if n.has_min_max
        then some (datum_to_protobuf_binary macros n.maximum_value by_value type_length)
        else none;
    valueblockoffset = some n.value_block_offset;
    valuelength = some n.value_length;
    valuecompressiontype = some (compression_code n.value_compression_type);
    existsblockoffset = some n.exists_block_offset;
    existslength = some n.exists_length;
  }

  unfoldable pub serialize_column_skip_list :
      List (ColumnBlockSkipNode Datum) → ℕ → Bool → ℤ → List ℕ
  unfolding protobuf_node
  serialize_column_skip_list nodes block_count by_value type_length =
      protobuf.column_block_skip_list_pack
        (map (protobuf_node by_value type_length) (take block_count nodes))

  -- `uint32`
  unfoldable pub deserialize_block_count : List ℕ → Result ℕ
  deserialize_block_count buffer = do
    p ← require (protobuf.column_block_skip_list_unpack buffer) invalid_skip_list_buffer
    ok (length p % 2 ^ 32)

  abbrev pub row_count_or : Option ℕ → ℕ
  row_count_or none = 0
  row_count_or (some n) = n

  -- the loop; the sum is a `uint32`
  pub sum_row_counts : ℕ → List Protobuf.ColumnBlockSkipNode → ℕ
  sum_row_counts total [] = total
  sum_row_counts total (n ∷ ns) = sum_row_counts ((total + row_count_or n.rowcount) % 2 ^ 32) ns

  -- The loop runs over `n_blockskipnodearray`, cut to a `uint32`.
  unfoldable pub deserialize_row_count : List ℕ → Result ℕ
  unfolding sum_row_counts
  deserialize_row_count buffer = do
    p ← require (protobuf.column_block_skip_list_unpack buffer) invalid_skip_list_buffer
    ok (sum_row_counts 0 (take (length p % 2 ^ 32) p))

  -- the Datum that a skip node gets: 0 where it has no minimum and maximum
  pub datum_or_zero : Bool → ℤ → Option (List ℕ) → Datum
  datum_or_zero by_value type_length none = zero_datum
  datum_or_zero by_value type_length (some binary) =
      protobuf_binary_to_datum macros binary by_value type_length

  abbrev pub has {ℓ} : {A : Type ℓ} → Option A → Bool
  has none = false
  has (some a) = true

  -- one round of the loop
  pub read_node : Bool → ℤ → Protobuf.ColumnBlockSkipNode → Result (ColumnBlockSkipNode Datum)
  unfolding datum_or_zero
  read_node by_value type_length m = do
    row_count ← require m.rowcount missing_skip_node_fields
    exists_block_offset ← require m.existsblockoffset missing_skip_node_fields
    value_block_offset ← require m.valueblockoffset missing_skip_node_fields
    exists_length ← require m.existslength missing_skip_node_fields
    value_length ← require m.valuelength missing_skip_node_fields
    compression ← require m.valuecompressiontype missing_skip_node_fields
    fail_if (if has m.minimumvalue then not (has m.maximumvalue) else has m.maximumvalue)
        min_max_mismatch
    ok (record {
      has_min_max = has m.minimumvalue;
      minimum_value = datum_or_zero by_value type_length m.minimumvalue;
      maximum_value = datum_or_zero by_value type_length m.maximumvalue;
      row_count = row_count;
      value_block_offset = value_block_offset;
      value_length = value_length;
      exists_block_offset = exists_block_offset;
      exists_length = exists_length;
      value_compression_type = compression_of compression;
    })

  pub read_nodes :
      Bool → ℤ → List Protobuf.ColumnBlockSkipNode → Result (List (ColumnBlockSkipNode Datum))
  read_nodes by_value type_length [] = ok []
  read_nodes by_value type_length (m ∷ ms) = do
    n ← read_node by_value type_length m
    rest ← read_nodes by_value type_length ms
    ok (n ∷ rest)

  unfoldable pub deserialize_column_skip_list :
      List ℕ → Bool → ℤ → ℕ → Result (List (ColumnBlockSkipNode Datum))
  unfolding read_nodes read_node
  deserialize_column_skip_list buffer by_value type_length block_count = do
    p ← require (protobuf.column_block_skip_list_unpack buffer) invalid_skip_list_buffer
    fail_if (not (length p == block_count)) block_count_mismatch
    read_nodes by_value type_length p
