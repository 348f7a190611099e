-- ===== src/SkipNode/MinMax.antt =====
-- The minimum and maximum that a block's rows leave in its skip node.
use cstore_fdw.Prelude.{
  ◌≡◌, refl, true, false, some, List, [], ◌∷◌, arith, take, All, Bool-cases, inl, inr, append-nil,
}
use cstore_fdw.Prelude.Int.{ℤ, pos, negsuc, is_positive, is_negative}
use cstore_fdw.Postgres.{Attribute, TupleMacros, TupleMacroLaws}
use cstore_fdw.Types.{ColumnBlockSkipNode, empty_skip_node}
use cstore_fdw.SkipNode.{Comparison, datum_copy, widen, update_block_skip_node_min_max}

not_both : (z : ℤ) → is_negative z ≡ true → is_positive z ≡ false
not_both (pos n) h = cc
not_both (negsuc n) h = refl

module _ (macros : TupleMacros) (laws : TupleMacroLaws macros) (a : Attribute) where
  open macros use {Datum, zero_datum}
  open laws use {IsValue}

  -- A btree comparison function is a total preorder on the values of its type.
  pub record ComparisonLaws (comparison : Comparison Datum) : Type 0 where
    pub reflexive : (x : Datum) → IsValue a x → is_positive (comparison a.attcollation x x) ≡ false
    pub opposite :
        (x y : Datum)
        → IsValue a x
        → IsValue a y
        → is_positive (comparison a.attcollation x y) ≡ is_negative (comparison a.attcollation y x)
    pub transitive :
        (x y z : Datum)
        → IsValue a x
        → IsValue a y
        → IsValue a z
        → is_positive (comparison a.attcollation x y) ≡ false
        → is_positive (comparison a.attcollation y z) ≡ false
        → is_positive (comparison a.attcollation x z) ≡ false

  pub datum_copy-eq : (x : Datum) → IsValue a x → datum_copy macros x a.attbyval a.attlen ≡ x
  unfolding datum_copy
  datum_copy-eq x v = elim (Bool-cases a.attbyval) [
    | inl e ↦ rw (e, datum_copy)
    | inr e ↦
        rw (e, datum_copy)
          (ground (
            arith,
            laws.pointer_image a x [] v e,
            append-nil
                (take (macros.att_addlength_datum 0 a.attlen x) (macros.datum_get_pointer x)),
          ))
  ]

  module _ (comparison : Comparison Datum) (order : ComparisonLaws comparison) where
    abbrev pub AtMost : Datum → Datum → Type 0
    AtMost x y = is_positive (comparison a.attcollation x y) ≡ false

    abbrev pub update : ColumnBlockSkipNode Datum → Datum → ColumnBlockSkipNode Datum
    update node value =
        update_block_skip_node_min_max macros node value a.attbyval a.attlen a.attcollation
          (some comparison)

    -- The updates of a block's rows, in their order.
    abbrev pub update_all : ColumnBlockSkipNode Datum → List Datum → ColumnBlockSkipNode Datum
    update_all node [] = node
    update_all node (x ∷ xs) = update_all (update node x) xs

    -- A node with a minimum and a maximum, both values of the column.
    record HasRange (node : ColumnBlockSkipNode Datum) : Type 0 where
      is_set : node.has_min_max ≡ true
      low : IsValue a node.minimum_value
      high : IsValue a node.maximum_value

    -- A node that bounds what another bounds.
    record Extends (old new : ColumnBlockSkipNode Datum) : Type 0 where
      still_set : HasRange new
      lower : AtMost new.minimum_value old.minimum_value
      higher : AtMost old.maximum_value new.maximum_value

    abbrev pub Bounds : ColumnBlockSkipNode Datum → Datum → Type 0
    Bounds node x = AtMost node.minimum_value x × AtMost x node.maximum_value

    minimum_step :
        (node : ColumnBlockSkipNode Datum) (x : Datum)
        → HasRange node
        → IsValue a x
        → IsValue a (update node x).minimum_value
          × AtMost (update node x).minimum_value node.minimum_value
          × AtMost (update node x).minimum_value x
    unfolding update_block_skip_node_min_max widen
    minimum_step node x s v =
        elim (Bool-cases (is_negative (comparison a.attcollation x node.minimum_value))) [
          | inl e ↦ rw (s.is_set, e, datum_copy-eq x v) (v, not_both _ e, order.reflexive x v)
          | inr e ↦
              rw (s.is_set, e)
                (
                  s.low,
                  order.reflexive node.minimum_value s.low,
                  ground (arith, order.opposite node.minimum_value x s.low v),
                )
        ]

    maximum_step :
        (node : ColumnBlockSkipNode Datum) (x : Datum)
        → HasRange node
        → IsValue a x
        → IsValue a (update node x).maximum_value
          × AtMost node.maximum_value (update node x).maximum_value
          × AtMost x (update node x).maximum_value
    unfolding update_block_skip_node_min_max widen
    maximum_step node x s v =
        elim (Bool-cases (is_positive (comparison a.attcollation x node.maximum_value))) [
          | inl e ↦
              rw (s.is_set, e, datum_copy-eq x v)
                (
                  v,
                  not_both (comparison a.attcollation node.maximum_value x)
                      (ground (arith, order.opposite x node.maximum_value v s.high)),
                  order.reflexive x v,
                )
          | inr e ↦ rw (s.is_set, e) (s.high, order.reflexive node.maximum_value s.high, e)
        ]

    update-set :
        (node : ColumnBlockSkipNode Datum) (x : Datum)
        → HasRange node
        → (update node x).has_min_max ≡ true
    unfolding update_block_skip_node_min_max widen
    update-set node x s = rw (s.is_set) refl

    update-Extends :
        (node : ColumnBlockSkipNode Datum) (x : Datum)
        → HasRange node
        → IsValue a x
        → Extends node (update node x) × Bounds (update node x) x
    update-Extends node x s v =
        let low = minimum_step node x s v in
        let high = maximum_step node x s v in
        (
          record {
            still_set = record { is_set = update-set node x s; low = low.0; high = high.0 };
            lower = low.1;
            higher = high.1;
          },
          (low.2, high.2),
        )

    Bounds-Extends :
        (old new : ColumnBlockSkipNode Datum) (x : Datum)
        → HasRange old
        → Extends old new
        → IsValue a x
        → Bounds old x
        → Bounds new x
    Bounds-Extends old new x s e v b = (
      order.transitive _ old.minimum_value _ e.still_set.low s.low v e.lower b.0,
      order.transitive _ old.maximum_value _ v s.high e.still_set.high b.1 e.higher,
    )

    Extends-chain :
        (first second third : ColumnBlockSkipNode Datum)
        → HasRange first
        → Extends first second
        → Extends second third
        → Extends first third
    Extends-chain first second third s e f = record {
      still_set = f.still_set;
      lower =
          order.transitive _ second.minimum_value _ f.still_set.low e.still_set.low s.low f.lower
            e.lower;
      higher =
          order.transitive _ second.maximum_value _ s.high e.still_set.high f.still_set.high
            e.higher f.higher;
    }

    update_all-Extends :
        (node : ColumnBlockSkipNode Datum) (xs : List Datum)
        → HasRange node
        → All (IsValue a) xs
        → Extends node (update_all node xs) × All (Bounds (update_all node xs)) xs
    update_all-Extends node [] s v = (
      record { still_set = s; lower = order.reflexive _ s.low; higher = order.reflexive _ s.high },
      tt,
    )
    update_all-Extends node (x ∷ xs) s v =
        let step = update-Extends node x s v.0 in
        let rest = update_all-Extends (update node x) xs step.0.still_set v.1 in
        (
          Extends-chain node (update node x) _ s step.0 rest.0,
          (Bounds-Extends (update node x) _ x step.0.still_set rest.0 v.0 step.1, rest.1),
        )

    first_update-HasRange :
        (x : Datum) → IsValue a x → HasRange (update (empty_skip_node zero_datum) x)
    unfolding update_block_skip_node_min_max widen
    first_update-HasRange x v = record { is_set = refl; low = copied; high = copied }
      where
        copied : IsValue a (datum_copy macros x a.attbyval a.attlen)
        copied = rw (datum_copy-eq x v) v

    first_update-Bounds :
        (x : Datum) → IsValue a x → Bounds (update (empty_skip_node zero_datum) x) x
    unfolding update_block_skip_node_min_max widen
    first_update-Bounds x v = rw (datum_copy-eq x v) (order.reflexive x v, order.reflexive x v)

    -- After the updates of the values of a block, of which there is at least one, its node has a
    -- minimum and a maximum, both values of the column, and they bound every value of the block.
    pub update_all-Bounds :
        (x : Datum) (xs : List Datum)
        → IsValue a x
        → All (IsValue a) xs
        → let node = update_all (empty_skip_node zero_datum) (x ∷ xs) in
          (node.has_min_max ≡ true)
          × IsValue a node.minimum_value
          × IsValue a node.maximum_value
          × All (Bounds node) (x ∷ xs)
    update_all-Bounds x xs v vs =
        let s = first_update-HasRange x v in
        let (e, b) = update_all-Extends (update (empty_skip_node zero_datum) x) xs s vs in
        (
          e.still_set.is_set,
          e.still_set.low,
          e.still_set.high,
          (Bounds-Extends _ _ x s e v (first_update-Bounds x v), b),
        )
