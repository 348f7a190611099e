-- ===== src/Postgres.antt =====
-- What the extension takes from PostgreSQL to handle column values: `Form_pg_attribute`, and the
-- macros of access/tupmacs.h and postgres.h over an abstract `Datum`, as parameters. A Datum of a
-- by-reference type stands for the value that it points to, so reading a value back from another
-- buffer gives the same Datum.
use cstore_fdw.Prelude.{
  ℕ, ◌+◌, ◌^◌, ◌≤◌, ◌<◌, ◌≡◌, Bool, true, false, List, ◌++◌, if◌then◌else◌, length, take,
}
use cstore_fdw.Prelude.Int.{ℤ, pos, is_positive}

-- The fields of `FormData_pg_attribute` that the extension reads.
pub record Attribute : Type 0 where
  pub attnum : ℕ
  pub atttypid : ℕ
  pub atttypmod : ℕ
  pub attcollation : ℕ
  pub attbyval : Bool
  pub attlen : ℤ
  pub attalign : ℕ
  pub atthasdef : Bool
  pub attisdropped : Bool

pub record TupleMacros : Type 1 where
  pub Datum : Type 0
  -- `(Datum) 0`
  pub zero_datum : Datum
  pub att_addlength_datum : ℕ → ℤ → Datum → ℕ
  pub att_align_nominal : ℕ → ℕ → ℕ
  -- the bytes that `store_att_byval` writes
  pub store_att_byval : Datum → ℤ → List ℕ
  -- the memory from the address on that a by-reference Datum holds
  pub datum_get_pointer : Datum → List ℕ
  -- the Datum for the address at which this memory begins
  pub pointer_get_datum : List ℕ → Datum
  pub fetch_att : List ℕ → Bool → ℤ → Datum

module _ (macros : TupleMacros) where
  open macros use {
    Datum, att_addlength_datum, att_align_nominal, store_att_byval, datum_get_pointer,
    pointer_get_datum, fetch_att,
  }

  -- The bytes that make up a value.
  abbrev pub image : Attribute → Datum → List ℕ
  image a d =
      if a.attbyval
      then store_att_byval d a.attlen
      else take (att_addlength_datum 0 a.attlen d) (datum_get_pointer d)

  -- The documented behaviour of the macros on the values of a column's type.
  pub record TupleMacroLaws : Type 1 where
    pub IsValue : Attribute → Datum → Type 0
    -- a value takes less than `MaxAllocSize` bytes
    pub addlength_small :
        (a : Attribute) (d : Datum) → IsValue a d → att_addlength_datum 0 a.attlen d < 2 ^ 30
    pub addlength_fixed :
        (a : Attribute) (d : Datum) (n : ℕ)
        → IsValue a d
        → a.attlen ≡ pos n
        → att_addlength_datum 0 a.attlen d ≡ n
    -- only types of a fixed length are passed by value
    pub byval_positive :
        (a : Attribute) (d : Datum) → IsValue a d → a.attbyval ≡ true → is_positive a.attlen ≡ true
    pub length_image :
        (a : Attribute) (d : Datum)
        → IsValue a d
        → length (image a d) ≡ att_addlength_datum 0 a.attlen d
    pub fetch_image :
        (a : Attribute) (d : Datum) (rest : List ℕ)
        → IsValue a d
        → fetch_att (image a d ++ rest) a.attbyval a.attlen ≡ d
    pub pointer_image :
        (a : Attribute) (d : Datum) (rest : List ℕ)
        → IsValue a d
        → a.attbyval ≡ false
        → pointer_get_datum (image a d ++ rest) ≡ d
    pub addlength_image :
        (a : Attribute) (d : Datum) (offset : ℕ) (rest : List ℕ)
        → IsValue a d
        → att_addlength_datum offset a.attlen (pointer_get_datum (image a d ++ rest))
          ≡ offset + att_addlength_datum 0 a.attlen d
    -- rounding up to the alignment, at most to 8
    pub align_zero : (c : ℕ) → att_align_nominal 0 c ≡ 0
    pub align_bounds : (n c : ℕ) → (n ≤ att_align_nominal n c) × (att_align_nominal n c ≤ n + 7)
    pub align_idem : (n c : ℕ) → att_align_nominal (att_align_nominal n c) c ≡ att_align_nominal n c
    pub align_add :
        (m n c : ℕ)
        → att_align_nominal m c ≡ m
        → att_align_nominal (m + n) c ≡ m + att_align_nominal n c
