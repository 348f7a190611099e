-- ===== src/Prelude/Bits.antt =====
-- The bits of a byte: what `1 << i` with `&` and `|` does on one, checked on every byte.
use Prim.Native.Nat.{ℕ, zero, suc, ◌+◌, ◌*◌, ◌/◌, ◌%◌, ◌^◌, ◌<◌, bit_and, bit_or}
use mathlib.Core.Path.{◌≡◌, refl}
use mathlib.Core.Bool.{Bool, true, false, not, ◌||◌}
use native.Mathlib.Omega.{arith}
use cstore_fdw.Prelude.Tests.{◌==◌, ltb, ltb→lt, if◌then◌else◌}

-- `holds_to p n`: a test holds at every number below `n`, by evaluation.
holds_to : (ℕ → Bool) → ℕ → Bool
holds_to test zero = true
holds_to test (suc last) = if test last then holds_to test last else false

holds_to-at :
    (test : ℕ → Bool) (bound value : ℕ)
    → value < bound
    → holds_to test bound ≡ true
    → test value ≡ true
unfolding holds_to
holds_to-at test (suc last) value below all = ground (arith, holds_to-at test last value)
holds_to-at test zero value below all = absurd (omega arith)

-- `(byte & (1 << k)) != 0`
abbrev pub test_bit : ℕ → ℕ → Bool
test_bit x k = not (bit_and x (2 ^ k) == 0)

abbrev same : Bool → Bool → Bool
same a b = if a then b else not b

same→eq : (a b : Bool) → same a b ≡ true → a ≡ b
same→eq a b h = ground arith

abbrev or_law : ℕ → ℕ → ℕ → Bool
or_law x j k = same (test_bit (bit_or x (2 ^ j)) k) (j == k || test_bit x k)

or_law_table : holds_to (λ t. or_law (t / 64) (t / 8 % 8) (t % 8)) 16384 ≡ true
unfolding holds_to
or_law_table = refl

or_law_at : (x j k t : ℕ) → t / 64 ≡ x → t / 8 % 8 ≡ j → t % 8 ≡ k → t < 16384 → or_law x j k ≡ true
or_law_at x j k t p q r h =
    rw (← p, ← q, ← r)
      (holds_to-at (λ t. or_law (t / 64) (t / 8 % 8) (t % 8)) 16384 t h or_law_table)

-- Setting one bit of a byte sets that bit and no other.
pub test_bit-bit_or :
    (x j k : ℕ) → x < 256 → j < 8 → k < 8 → test_bit (bit_or x (2 ^ j)) k ≡ (j == k || test_bit x k)
test_bit-bit_or x j k hx hj hk =
    same→eq _ _
      (or_law_at x j k (x * 64 + j * 8 + k) (omega arith) (omega arith) (omega arith) (omega arith))

or_byte_table : holds_to (λ t. ltb (bit_or (t / 8) (2 ^ (t % 8))) 256) 2048 ≡ true
unfolding holds_to
or_byte_table = refl

or_byte_at : (x j t : ℕ) → t / 8 ≡ x → t % 8 ≡ j → t < 2048 → bit_or x (2 ^ j) < 256
or_byte_at x j t p q h =
    rw (← p, ← q)
      (ltb→lt _ _
        (holds_to-at (λ t. ltb (bit_or (t / 8) (2 ^ (t % 8))) 256) 2048 t h or_byte_table))

-- A byte with one more bit set is a byte.
pub bit_or-lt : (x j : ℕ) → x < 256 → j < 8 → bit_or x (2 ^ j) < 256
bit_or-lt x j hx hj = or_byte_at x j (x * 8 + j) (omega arith) (omega arith) (omega arith)

pub test_bit-zero : (k : ℕ) → k < 8 → test_bit 0 k ≡ false
unfolding holds_to
test_bit-zero k h = zero_at k (holds_to-at (λ k. not (test_bit 0 k)) 8 k h zero_table)
  where
    zero_table : holds_to (λ k. not (test_bit 0 k)) 8 ≡ true
    zero_table = refl

    zero_at : (k : ℕ) → not (test_bit 0 k) ≡ true → test_bit 0 k ≡ false
    zero_at k h = ground arith
