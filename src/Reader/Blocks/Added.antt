-- ===== src/Reader/Blocks/Added.antt =====
-- The cells of a column that was added behind those of a stripe: `DeserializeBlockData` and
-- `ColumnDefaultValue` (cstore_reader.c).
use cstore_fdw.Prelude.{ℕ, ◌≡◌, true, false, Option, none, some, List}
use cstore_fdw.Postgres.{Attribute, TupleMacros}
use cstore_fdw.Compression.{Pglz}
use cstore_fdw.Reader.{AttrDefault}
use cstore_fdw.Reader.Constraints.{Planner, Const}
use cstore_fdw.Reader.Blocks.{find_default}

module _ (macros : TupleMacros) (pglz : Pglz) (planner : Planner macros.Datum) where
  open macros use {Datum}

  -- What an added column has in all rows of an older stripe: null if it has no default, and the value
  -- field of its default's constant otherwise, also where that constant is null.
  abbrev pub HasDefault : List AttrDefault → Attribute → Option Datum → Type 0
  HasDefault defaults a none = a.atthasdef ≡ false
  HasDefault defaults a (some value) =
      (a.atthasdef ≡ true)
      × ((text : List ℕ) × (constant : Const Datum) × (find_default a.attnum defaults ≡ some text)
          × (planner.default_constant text ≡ some constant)
          × (constant.constvalue ≡ value))
