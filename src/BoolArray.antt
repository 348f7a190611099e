-- ===== src/BoolArray.antt =====
-- The presence bits of a column block: `SerializeBoolArray` (cstore_writer.c) and
-- `DeserializeBoolArray` (cstore_reader.c). A byte is a number below 256.
pub mod RoundTrip
use cstore_fdw.Prelude.{
  ℕ, zero, suc, ◌+◌, ◌*◌, ◌/◌, ◌%◌, ◌^◌, Bool, true, false, List, [], ◌∷◌, bit_or, ltb,
  if◌then◌else◌, length, get_or, set, take, replicate, test_bit,
}
use cstore_fdw.Result.{Result, ok, insufficient_bool_data, fail_if, ◌>>=◌, ◌>>◌}

-- `data[index / 8] |= (1 << index % 8)`
pub or_bit : List ℕ → ℕ → List ℕ
or_bit buffer index =
    set buffer (index / 8) (bit_or (get_or buffer (index / 8) 0) (2 ^ (index % 8)))

-- the loop from `index` on; the list is what it has not reached of the array
pub or_bits : ℕ → List Bool → List ℕ → List ℕ
unfolding or_bit
or_bits index [] buffer = buffer
or_bits index (b ∷ bs) buffer = or_bits (index + 1) bs (if b then or_bit buffer index else buffer)

pub byte_count : ℕ → ℕ
byte_count n = (n + 7) / 8

-- The array has at least `n` entries.
unfoldable pub serialize_bool_array : List Bool → ℕ → List ℕ
unfolding or_bits byte_count
serialize_bool_array array n = or_bits 0 (take n array) (replicate (byte_count n) 0)

-- `(data[index / 8] & (1 << index % 8)) != 0`
pub bit_at : List ℕ → ℕ → Bool
bit_at buffer index = test_bit (get_or buffer (index / 8) 0) (index % 8)

-- `n` rounds of the loop, from `index` on
pub read_bits : ℕ → ℕ → List ℕ → List Bool → List Bool
unfolding bit_at
read_bits zero index buffer array = array
read_bits (suc n) index buffer array =
    read_bits n (index + 1) buffer (set array index (bit_at buffer index))

-- The result is the new content of `boolArray`; `maximumBoolCount` is a `uint32`.
unfoldable pub deserialize_bool_array : List ℕ → List Bool → ℕ → Result (List Bool)
unfolding read_bits
deserialize_bool_array buffer array n = do
  fail_if (ltb (length buffer * 8 % 2 ^ 32) n) insufficient_bool_data
  ok (read_bits n 0 buffer array)
