-- ===== src/CString.antt =====
-- NUL-terminated strings as the lists of their bytes before the NUL, and `strncmp`.
use Prim.Native.Char.{code}
use Prim.Native.String.{String}
use cstore_fdw.Prelude.{
  ℕ, zero, suc, ◌≤◌, ◌≡◌, refl, Bool, true, false, ◌&&◌, List, [], ◌∷◌, arith, ◌==◌, length,
}

abbrev pub Text : Type 0
Text = List ℕ

abbrev pub codes : String → Text
codes String.[] = []
codes (String.◌∷◌ c s) = code c ∷ codes s

-- `strncmp(a, b, n) == 0`
unfoldable pub strncmp_eq : Text → Text → ℕ → Bool
strncmp_eq a b zero = true
strncmp_eq [] [] (suc n) = true
strncmp_eq [] (y ∷ b) (suc n) = false
strncmp_eq (x ∷ a) [] (suc n) = false
strncmp_eq (x ∷ a) (y ∷ b) (suc n) = x == y && strncmp_eq a b n

abbrev pub namedatalen : ℕ
namedatalen = 64

pub strncmp_eq_refl : (a : Text) (n : ℕ) → strncmp_eq a a n ≡ true
unfolding strncmp_eq
strncmp_eq_refl a zero = refl
strncmp_eq_refl [] (suc n) = refl
strncmp_eq_refl (x ∷ a) (suc n) = ground (arith, strncmp_eq_refl a n)

-- Where the second string fits in `n` bytes, equality under `strncmp` is equality.
pub strncmp_eq→eq : (a b : Text) (n : ℕ) → suc (length b) ≤ n → strncmp_eq a b n ≡ true → a ≡ b
unfolding strncmp_eq
strncmp_eq→eq a b zero h e = absurd (omega arith)
strncmp_eq→eq [] [] (suc n) h e = refl
strncmp_eq→eq [] (y ∷ b) (suc n) h e = cc
strncmp_eq→eq (x ∷ a) [] (suc n) h e = cc
strncmp_eq→eq (x ∷ a) (y ∷ b) (suc n) h e =
    ground (arith, strncmp_eq→eq a b n (omega arith) (ground arith))
