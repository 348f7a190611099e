-- ===== src/SkipNode.antt =====
-- The minimum and maximum of a column block: `UpdateBlockSkipNodeMinMax` and `DatumCopy`
-- (cstore_writer.c).
pub mod MinMax
use cstore_fdw.Prelude.{ℕ, Bool, true, false, Option, none, some, List, if◌then◌else◌, take}
use cstore_fdw.Prelude.Int.{ℤ, is_positive, is_negative}
use cstore_fdw.Postgres.{Attribute, TupleMacros}
use cstore_fdw.Types.{ColumnBlockSkipNode}

-- A btree comparison function called through `FunctionCall2Coll`: its arguments are the collation
-- and the two values, its result the `int32`.
abbrev pub Comparison : Type 0 → Type 0
Comparison Datum = ℕ → Datum → Datum → ℤ

module _ (macros : TupleMacros) where
  open macros use {Datum, att_addlength_datum, datum_get_pointer, pointer_get_datum}

  pub datum_copy : Datum → Bool → ℤ → Datum
  datum_copy datum by_value type_length =
      if by_value
      then datum
      else pointer_get_datum
          (take (att_addlength_datum 0 type_length datum) (datum_get_pointer datum))

  abbrev Node : Type 0
  Node = ColumnBlockSkipNode Datum

  -- the part for a column type with a comparison function
  pub widen : Node → Datum → Bool → ℤ → ℕ → Comparison Datum → Node
  unfolding datum_copy
  widen node value by_value type_length collation comparison =
      let copy = datum_copy value by_value type_length in
      if node.has_min_max
      then (record node {
        has_min_max = true;
        minimum_value =
            if is_negative (comparison collation value node.minimum_value)
            then copy
            else node.minimum_value;
        maximum_value =
            if is_positive (comparison collation value node.maximum_value)
            then copy
            else node.maximum_value;
      })
      else (record node { has_min_max = true; minimum_value = copy; maximum_value = copy })

  unfoldable pub update_block_skip_node_min_max :
      Node → Datum → Bool → ℤ → ℕ → Option (Comparison Datum) → Node
  unfolding widen
  update_block_skip_node_min_max node value by_value type_length collation none = node
  update_block_skip_node_min_max node value by_value type_length collation (some comparison) =
      widen node value by_value type_length collation comparison
