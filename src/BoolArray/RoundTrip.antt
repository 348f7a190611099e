-- ===== src/BoolArray/RoundTrip.antt =====
-- The presence bits are read back as they were written.
use native.Mathlib.Nat.{add-zero}
use cstore_fdw.Prelude.{
  set-append, length-append, bit_or, ℕ, zero, suc, ◌+◌, ◌*◌, ◌/◌, ◌%◌, ◌^◌, ◌≤◌, ◌<◌, ◌≡◌, refl,
  sym, ◌∙◌, ap, Bool, true, false, ◌||◌, List, [], ◌∷◌, ◌++◌, append_assoc, some, arith, ◌==◌,
  le→ltb, length, get_elem?, get_or, set, take, drop, replicate, All, length-set, length-replicate,
  length-take, get_or-set, get_or-replicate, All-set, All-replicate, All-get_or, test_bit-bit_or,
  test_bit-zero, bit_or-lt,
}
use cstore_fdw.Result.{ok, err, insufficient_bool_data}
use cstore_fdw.BoolArray.{
  or_bit, or_bits, byte_count, serialize_bool_array, bit_at, read_bits, deserialize_bool_array,
}

abbrev pub IsByte : ℕ → Type 0
IsByte b = b < 256

length-or_bit : (buffer : List ℕ) (i : ℕ) → length (or_bit buffer i) ≡ length buffer
unfolding or_bit
length-or_bit buffer i = length-set buffer _ _

or_bit-IsByte : (buffer : List ℕ) (i : ℕ) → All IsByte buffer → All IsByte (or_bit buffer i)
unfolding or_bit
or_bit-IsByte buffer i h =
    All-set IsByte buffer _ _ h
      (bit_or-lt _ _ (All-get_or IsByte buffer (i / 8) 0 h (omega arith)) (omega arith))

-- Setting bit `i` changes that bit only.
bit_at-or_bit :
    (buffer : List ℕ) (i j : ℕ)
    → All IsByte buffer
    → i / 8 < length buffer
    → bit_at (or_bit buffer i) j ≡ (i == j || bit_at buffer j)
unfolding or_bit bit_at
bit_at-or_bit buffer i j h lt = ground (
  arith,
  get_or-set buffer (i / 8) (j / 8) (bit_or (get_or buffer (i / 8) 0) (2 ^ (i % 8))) 0,
  test_bit-bit_or (get_or buffer (i / 8) 0) (i % 8) (j % 8)
      (All-get_or IsByte buffer (i / 8) 0 h (omega arith)),
)

length-or_bits :
    (i : ℕ) (bs : List Bool) (buffer : List ℕ) → length (or_bits i bs buffer) ≡ length buffer
unfolding or_bits
length-or_bits i [] buffer = refl
length-or_bits i (true ∷ bs) buffer =
    length-or_bits (i + 1) bs (or_bit buffer i) ∙ length-or_bit buffer i
length-or_bits i (false ∷ bs) buffer = length-or_bits (i + 1) bs buffer

or_bits-IsByte :
    (i : ℕ) (bs : List Bool) (buffer : List ℕ)
    → All IsByte buffer
    → All IsByte (or_bits i bs buffer)
unfolding or_bits
or_bits-IsByte i [] buffer h = h
or_bits-IsByte i (true ∷ bs) buffer h = or_bits-IsByte (i + 1) bs _ (or_bit-IsByte buffer i h)
or_bits-IsByte i (false ∷ bs) buffer h = or_bits-IsByte (i + 1) bs buffer h

-- The loop sets no bit before the index at which it starts.
bit_at-or_bits_before :
    (i : ℕ) (bs : List Bool) (buffer : List ℕ) (j : ℕ)
    → All IsByte buffer
    → i + length bs ≤ length buffer * 8
    → j < i
    → bit_at (or_bits i bs buffer) j ≡ bit_at buffer j
unfolding or_bits
bit_at-or_bits_before i [] buffer j h fits lt = refl
bit_at-or_bits_before i (true ∷ bs) buffer j h fits lt =
    bit_at-or_bits_before (i + 1) bs (or_bit buffer i) j (or_bit-IsByte buffer i h)
      (omega (arith, length-or_bit buffer i)) (omega arith)
    ∙ ground (arith, bit_at-or_bit buffer i j h (omega arith))
bit_at-or_bits_before i (false ∷ bs) buffer j h fits lt =
    bit_at-or_bits_before (i + 1) bs buffer j h (omega arith) (omega arith)

bit_at-or_bits :
    (i : ℕ) (bs : List Bool) (buffer : List ℕ) (k : ℕ) (b : Bool)
    → All IsByte buffer
    → i + length bs ≤ length buffer * 8
    → get_elem? bs k ≡ some b
    → bit_at (or_bits i bs buffer) (i + k) ≡ (b || bit_at buffer (i + k))
unfolding or_bits
bit_at-or_bits i [] buffer k b h fits e = cc
bit_at-or_bits i (true ∷ bs) buffer zero b h fits e = ground (
  arith,
  bit_at-or_bits_before (i + 1) bs (or_bit buffer i) i (or_bit-IsByte buffer i h)
      (omega (arith, length-or_bit buffer i)) (omega arith),
  bit_at-or_bit buffer i i h (omega arith),
)
bit_at-or_bits i (false ∷ bs) buffer zero b h fits e =
    ground (arith, bit_at-or_bits_before (i + 1) bs buffer i h (omega arith) (omega arith))
bit_at-or_bits i (true ∷ bs) buffer (suc k) b h fits e = ground (
  arith,
  bit_at-or_bits (i + 1) bs (or_bit buffer i) k b (or_bit-IsByte buffer i h)
      (omega (arith, length-or_bit buffer i)) e,
  bit_at-or_bit buffer i (i + suc k) h (omega arith),
)
bit_at-or_bits i (false ∷ bs) buffer (suc k) b h fits e =
    ground (arith, bit_at-or_bits (i + 1) bs buffer k b h (omega arith) e)

bit_at-zeros : (n i : ℕ) → bit_at (replicate n 0) i ≡ false
unfolding bit_at
bit_at-zeros n i = rw get_or-replicate (test_bit-zero (i % 8) (omega arith))

-- Reading `length bs` bits that are those of `bs` puts `bs` over the old entries.
read_bits-eq :
    (i : ℕ) (bs before after : List Bool) (buffer : List ℕ)
    → length before ≡ i
    → length bs ≤ length after
    → ((k : ℕ) (b : Bool) → get_elem? bs k ≡ some b → bit_at buffer (i + k) ≡ b)
    → read_bits (length bs) i buffer (before ++ after) ≡ before ++ (bs ++ drop (length bs) after)
unfolding read_bits
read_bits-eq i [] before after buffer e fits same = refl
read_bits-eq i (b ∷ bs) before [] buffer e fits same = absurd (omega arith)
read_bits-eq i (b ∷ bs) before (a ∷ after) buffer e fits same =
    ap (read_bits (length bs) (i + 1) buffer) stored
    ∙ read_bits-eq (i + 1) bs (before ++ b ∷ []) after buffer
        (omega (arith, length-append before (b ∷ []))) (omega arith)
        (λ k c p. shifted k c (same (suc k) c p))
    ∙ append_assoc before (b ∷ []) (bs ++ drop (length bs) after)
  where
    bit : bit_at buffer i ≡ b
    bit = rw add-zero at (same 0 b refl)

    stored : set (before ++ a ∷ after) i (bit_at buffer i) ≡ (before ++ b ∷ []) ++ after
    stored = rw (bit, set-append before a after i b (sym e), append_assoc)

    shifted : (k : ℕ) (c : Bool) → bit_at buffer (i + suc k) ≡ c → bit_at buffer (i + 1 + k) ≡ c
    shifted k c p = let q : i + 1 + k ≡ i + suc k = omega arith in rw q p

-- Writing the first `n` entries of an array and reading them over another array gives those
-- entries, followed by what that array held behind them, for every `n` that the arrays hold and
-- whose bit count does not pass a `uint32`.
pub deserialize-serialize_bool_array :
    (array old : List Bool) (n : ℕ)
    → n ≤ length array
    → n ≤ length old
    → n + 7 < 2 ^ 32
    → deserialize_bool_array (serialize_bool_array array n) old n ≡ ok (take n array ++ drop n old)
unfolding deserialize_bool_array serialize_bool_array
deserialize-serialize_bool_array array old n ha ho small =
    rw (le→ltb (length buffer * 8 % 2 ^ 32) n (omega (arith, size, count))) (
      ap ok (
        rw count at (read_bits-eq 0 (take n array) [] old buffer refl (omega (arith, count)) bits)))
  where
    buffer : List ℕ
    buffer = or_bits 0 (take n array) (replicate (byte_count n) 0)

    count : length (take n array) ≡ n
    count = omega (arith, length-take n array)

    size : length buffer ≡ (n + 7) / 8
    size =
        length-or_bits 0 (take n array) (replicate (byte_count n) 0)
        ∙ length-replicate {A = ℕ} (byte_count n) 0

    bits : (k : ℕ) (b : Bool) → get_elem? (take n array) k ≡ some b → bit_at buffer (0 + k) ≡ b
    bits k b p = ground (
      arith,
      bit_at-or_bits 0 (take n array) (replicate (byte_count n) 0) k b
          (All-replicate IsByte (byte_count n) 0 (omega arith))
          (omega (arith, length-replicate {A = ℕ} (byte_count n) 0, count)) p,
      bit_at-zeros (byte_count n) (0 + k),
    )

-- The presence bits of `n` rows take a byte for every eight rows, the last one perhaps in part.
pub length-serialize_bool_array :
    (array : List Bool) (n : ℕ) → length (serialize_bool_array array n) ≡ (n + 7) / 8
unfolding serialize_bool_array
length-serialize_bool_array array n =
    length-or_bits 0 (take n array) (replicate (byte_count n) 0)
    ∙ length-replicate {A = ℕ} (byte_count n) 0

-- What is read are always bytes: no serialized array holds a number from 256 on.
pub serialize_bool_array-IsByte :
    (array : List Bool) (n : ℕ) → All IsByte (serialize_bool_array array n)
unfolding serialize_bool_array
serialize_bool_array-IsByte array n =
    or_bits-IsByte 0 (take n array) _ (All-replicate IsByte (byte_count n) 0 (omega arith))

-- A buffer with fewer bits than rows is refused.
pub deserialize_bool_array_short :
    (buffer : List ℕ) (old : List Bool) (n : ℕ)
    → length buffer * 8 < n
    → deserialize_bool_array buffer old n ≡ err insufficient_bool_data
unfolding deserialize_bool_array
deserialize_bool_array_short buffer old n h = ground arith
