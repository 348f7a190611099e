-- ===== src/Tests/Codec.antt =====
-- A toy wire format with which the protobuf parameter is instantiated: a value is written as a list
-- of numbers and read back with what follows it.
use cstore_fdw.Prelude.{
  ℕ, zero, suc, ◌≡◌, refl, ap, Option, none, some, List, [], ◌∷◌, ◌++◌, append-nil, append_assoc,
  length,
}
use cstore_fdw.Prelude.Int.{ℤ, pos, negsuc}

pub record Codec (A : Type 0) : Type 0 where
  pub put : A → List ℕ
  pub get : List ℕ → Option (A × List ℕ)
  pub get-put : (a : A) (rest : List ℕ) → get (put a ++ rest) ≡ some (a, rest)

abbrev get_number : List ℕ → Option (ℕ × List ℕ)
get_number [] = none
get_number (n ∷ rest) = some (n, rest)

abbrev pub number : Codec ℕ
number = record { put = λ n. n ∷ []; get = get_number; get-put = λ n rest. refl }

module _ {A B : Type 0} where
  abbrev pub then_get :
      Option (A × List ℕ) → (A → List ℕ → Option (B × List ℕ)) → Option (B × List ℕ)
  then_get none f = none
  then_get (some (a, rest)) f = f a rest

module _ {A B : Type 0} (a : Codec A) (b : Codec B) where
  abbrev pair_put : A × B → List ℕ
  pair_put (x, y) = a.put x ++ b.put y

  abbrev pair_get : List ℕ → Option ((A × B) × List ℕ)
  pair_get l =
      then_get (a.get l) (λ x rest. then_get (b.get rest) (λ y rest'. some ((x, y), rest')))

  pub pair_law : (p : A × B) (rest : List ℕ) → pair_get (pair_put p ++ rest) ≡ some (p, rest)
  pair_law (x, y) rest = rw (append_assoc, a.get-put x (b.put y ++ rest), b.get-put y rest)

  abbrev pub pair : Codec (A × B)
  pair = record { put = pair_put; get = pair_get; get-put = pair_law }

module _ {A B : Type 0} (to : A → B) (from : B → A) (back : (a : A) → from (to a) ≡ a)
    (b : Codec B) where
  pub iso_law :
      (x : A) (rest : List ℕ)
      → then_get (b.get (b.put (to x) ++ rest)) (λ y r. some (from y, r)) ≡ some (x, rest)
  iso_law x rest = rw (b.get-put (to x) rest, back x)

  abbrev pub iso : Codec A
  iso = record {
    put = λ x. b.put (to x);
    get = λ l. then_get (b.get l) (λ y r. some (from y, r));
    get-put = iso_law;
  }

module _ {A : Type 0} (a : Codec A) where
  abbrev option_put : Option A → List ℕ
  option_put none = 0 ∷ []
  option_put (some x) = 1 ∷ a.put x

  abbrev option_get : List ℕ → Option (Option A × List ℕ)
  option_get [] = none
  option_get (zero ∷ rest) = some (none, rest)
  option_get (suc n ∷ rest) = then_get (a.get rest) (λ x r. some (some x, r))

  pub option_law :
      (o : Option A) (rest : List ℕ) → option_get (option_put o ++ rest) ≡ some (o, rest)
  option_law none rest = refl
  option_law (some x) rest = rw (a.get-put x rest)

  abbrev pub option : Codec (Option A)
  option = record { put = option_put; get = option_get; get-put = option_law }

  abbrev items_put : List A → List ℕ
  items_put [] = []
  items_put (x ∷ xs) = a.put x ++ items_put xs

  abbrev items_get : ℕ → List ℕ → Option (List A × List ℕ)
  items_get zero l = some ([], l)
  items_get (suc n) l =
      then_get (a.get l) (λ x rest. then_get (items_get n rest) (λ xs rest'. some (x ∷ xs, rest')))

  pub items_law :
      (xs : List A) (rest : List ℕ) → items_get (length xs) (items_put xs ++ rest) ≡ some (xs, rest)
  items_law [] rest = refl
  items_law (x ∷ xs) rest = rw (append_assoc, a.get-put x (items_put xs ++ rest), items_law xs rest)

  abbrev list_get : List ℕ → Option (List A × List ℕ)
  list_get [] = none
  list_get (n ∷ rest) = items_get n rest

  abbrev pub list : Codec (List A)
  list = record { put = λ xs. length xs ∷ items_put xs; get = list_get; get-put = items_law }

abbrev integer_of : Option ℕ × ℕ → ℤ
integer_of (none, n) = pos n
integer_of (some _, n) = negsuc n

abbrev to_pair : ℤ → Option ℕ × ℕ
to_pair (pos n) = (none, n)
to_pair (negsuc n) = (some 0, n)

pub integer_back : (z : ℤ) → integer_of (to_pair z) ≡ z
integer_back (pos n) = refl
integer_back (negsuc n) = refl

abbrev pub integer : Codec ℤ
integer = iso to_pair integer_of integer_back (pair (option number) number)

module _ {A : Type 0} (a : Codec A) where
  abbrev drop_rest : Option (A × List ℕ) → Option A
  drop_rest none = none
  drop_rest (some (x, rest)) = some x

  -- a whole buffer
  abbrev pub unpack : List ℕ → Option A
  unpack l = drop_rest (a.get l)

  pub unpack-pack : (x : A) → unpack (a.put x) ≡ some x
  unpack-pack x = ap drop_rest (rw append-nil at (a.get-put x []))
