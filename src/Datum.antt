-- ===== src/Datum.antt =====
-- Column values as bytes: `SerializeSingleDatum` (cstore_writer.c), `DeserializeDatumArray`
-- (cstore_reader.c), and the values of a skip node, `DatumToProtobufBinary` and
-- `ProtobufBinaryToDatum` (cstore_metadata_serialization.c).
pub mod RoundTrip
use cstore_fdw.Prelude.{
  ℕ, zero, suc, ◌+◌, ◌-◌, ◌^◌, ◌%◌, Bool, true, false, List, [], ◌∷◌, ◌++◌, ltb, leb, if◌then◌else◌,
  length, set, take, drop, replicate,
}
use cstore_fdw.Prelude.Int.{ℤ, pos, negsuc, is_positive}
use cstore_fdw.Result.{Result, ok, insufficient_datum_data, string_too_large, fail_if, ◌>>=◌, ◌>>◌}
use cstore_fdw.StringInfo.{enlarge_string_info}
use cstore_fdw.Postgres.{Attribute, TupleMacros}

-- `memcpy` to the start of a buffer
abbrev pub overwrite : List ℕ → List ℕ → List ℕ
overwrite buffer bytes = bytes ++ drop (length bytes) buffer

abbrev pub to_nat : ℤ → ℕ
to_nat (pos n) = n
to_nat (negsuc n) = 0

module _ (macros : TupleMacros) where
  open macros use {
    Datum, att_addlength_datum, att_align_nominal, store_att_byval, datum_get_pointer,
    pointer_get_datum, fetch_att,
  }

  -- what the branches on the type's length and passing copy
  pub datum_bytes : Datum → Bool → ℤ → ℕ → List ℕ
  datum_bytes datum by_value type_length datum_length =
      if is_positive type_length
      then if by_value
        then store_att_byval datum type_length
        else take (to_nat type_length) (datum_get_pointer datum)
      else take datum_length (datum_get_pointer datum)

  -- What `SerializeSingleDatum` appends to a string that has room for it.
  unfoldable pub append_datum : List ℕ → Datum → Bool → ℤ → ℕ → List ℕ
  unfolding datum_bytes
  append_datum buffer datum by_value type_length align =
      let datum_length = att_addlength_datum 0 type_length datum % 2 ^ 32 in
      let aligned = att_align_nominal datum_length align % 2 ^ 32 in
      buffer
      ++ overwrite (replicate aligned 0) (datum_bytes datum by_value type_length datum_length)

  -- `SerializeSingleDatum`
  unfoldable pub serialize_single_datum : List ℕ → Datum → Bool → ℤ → ℕ → Result (List ℕ)
  serialize_single_datum buffer datum by_value type_length align = do
    let datum_length = att_addlength_datum 0 type_length datum % 2 ^ 32
    enlarge_string_info buffer (att_align_nominal datum_length align % 2 ^ 32)
    ok (append_datum buffer datum by_value type_length align)

  -- The loop from `index` on: the first list is what it has not reached of `existsArray`, and the
  -- offset is a `uint32`.
  pub read_datums : List Bool → ℕ → ℕ → List ℕ → Bool → ℤ → ℕ → List Datum → Result (List Datum)
  read_datums [] index offset buffer by_value type_length align datums = ok datums
  read_datums (false ∷ exists) index offset buffer by_value type_length align datums =
      read_datums exists (index + 1) offset buffer by_value type_length align datums
  read_datums (true ∷ exists) index offset buffer by_value type_length align datums =
      let pointer = drop offset buffer in
      let datum = fetch_att pointer by_value type_length in
      let passed = att_addlength_datum offset type_length (pointer_get_datum pointer) % 2 ^ 32 in
      let offset' = att_align_nominal passed align % 2 ^ 32 in
      do
        fail_if (ltb (length buffer) offset') insufficient_datum_data
        read_datums exists (index + 1) offset' buffer by_value type_length align
            (set datums index datum)

  unfoldable pub deserialize_datum_array :
      List ℕ → List Bool → ℕ → Bool → ℤ → ℕ → List Datum → Result (List Datum)
  unfolding read_datums
  deserialize_datum_array buffer exists n by_value type_length align datums =
      read_datums (take n exists) 0 0 buffer by_value type_length align datums

  unfoldable pub datum_to_protobuf_binary : Datum → Bool → ℤ → List ℕ
  unfolding datum_bytes
  datum_to_protobuf_binary datum by_value type_length =
      let datum_length = att_addlength_datum 0 type_length datum in
      overwrite (replicate datum_length 0) (datum_bytes datum by_value type_length datum_length)

  unfoldable pub protobuf_binary_to_datum : List ℕ → Bool → ℤ → Datum
  protobuf_binary_to_datum binary by_value type_length = fetch_att binary by_value type_length
