-- ===== src/Reader/Selection/Mask.antt =====
-- Which blocks `SelectedBlockMask` (cstore_reader.c) selects.
use cstore_fdw.Prelude.{
  ℕ, zero, suc, ◌≤◌, ◌<◌, ◌≡◌, refl, ap, ◌∙◌, Bool, true, false, not, ◌&&◌, ◌||◌, Option, none,
  some, List, [], ◌∷◌, arith, if◌then◌else◌, get_elem?, length, replicate, All, length-replicate,
  get_elem?-eq-some,
}
use cstore_fdw.SkipNode.{Comparison}
use cstore_fdw.Types.{ColumnBlockSkipNode}
use cstore_fdw.Writer.Invariant.Column.{Succeeds, value_of}
use cstore_fdw.Reader.{Var, column_index, StripeSkipList, elements_at}
use cstore_fdw.Reader.Constraints.{
  Planner, BoolExpr, update_constraint, get_function_info_or_null, build_base_constraint,
  build_restrict_info_list,
}
use cstore_fdw.Reader.Selection.{refute_blocks, refute_column, refute_columns, selected_block_mask}

get_elem?-replicate : {A : Type 0} (n i : ℕ) (a : A) → i < n → get_elem? (replicate n a) i ≡ some a
get_elem?-replicate zero i a h = absurd (omega arith)
get_elem?-replicate (suc n) zero a h = refl
get_elem?-replicate (suc n) (suc i) a h = get_elem?-replicate n i a (omega arith)

module _ {Datum : Type 0} (planner : Planner Datum) where
  open planner use {Expr, RestrictInfo, btree_am_oid, btorder_proc, predicate_refuted_by}

  abbrev pub comparison_of : Var → Option (Comparison Datum)
  comparison_of v = get_function_info_or_null planner v.vartype btree_am_oid btorder_proc

  -- The planner refutes the constraint with the minimum and maximum of the block.
  abbrev pub node_refuted : BoolExpr Datum → List RestrictInfo → ColumnBlockSkipNode Datum → Bool
  node_refuted c restrictions node =
      node.has_min_max
      && predicate_refuted_by (update_constraint c node.minimum_value node.maximum_value ∷ [])
          restrictions

  abbrev pub refuted_by : Var → List RestrictInfo → Option (ColumnBlockSkipNode Datum) → Bool
  refuted_by v restrictions none = false
  refuted_by v restrictions (some node) =
      node_refuted (build_base_constraint planner v) restrictions node

  -- The block `b` is refuted by the column of `v`, which has a comparison function.
  abbrev pub column_refutes :
      StripeSkipList Datum → List RestrictInfo → ℕ → Var → Option (Comparison Datum) → Bool
  column_refutes skip restrictions b v none = false
  column_refutes skip restrictions b v (some comparison) =
      refuted_by v restrictions (get_elem? (elements_at skip.skip_nodes (column_index v)) b)

  abbrev pub any_refutes : StripeSkipList Datum → List RestrictInfo → ℕ → List Var → Bool
  any_refutes skip restrictions b [] = false
  any_refutes skip restrictions b (v ∷ vs) =
      column_refutes skip restrictions b v (comparison_of v) || any_refutes skip restrictions b vs

  -- The columns of the variables have a node for every block.
  abbrev pub HasNodes : StripeSkipList Datum → List Var → Type 0
  HasNodes skip vars =
      All (λ v. skip.block_count ≤ length (elements_at skip.skip_nodes (column_index v))) vars

  -- An update forgets the one before.
  update_twice :
      (c : BoolExpr Datum) (a b : Datum) (set : Bool) (x y : Datum)
      → update_constraint (if set then update_constraint c a b else c) x y ≡ update_constraint c x y
  unfolding update_constraint
  update_twice c a b true x y = refl
  update_twice c a b false x y = refl

  -- The new mask has at `b` the bit that the old one and the node give.
  abbrev BitAt :
      BoolExpr Datum
      → List RestrictInfo
      → List (ColumnBlockSkipNode Datum)
      → List Bool
      → List Bool
      → Type 0
  BitAt c rs nodes mask mask' =
      (b : ℕ) (m : Bool) (node : ColumnBlockSkipNode Datum)
      → get_elem? mask b ≡ some m
      → get_elem? nodes b ≡ some node
      → get_elem? mask' b ≡ some (if node_refuted c rs node then false else m)

  BitAt-suc :
      (c : BoolExpr Datum) (rs : List RestrictInfo) (node : ColumnBlockSkipNode Datum)
      (nodes : List (ColumnBlockSkipNode Datum)) (m : Bool) (mask rest : List Bool)
      → BitAt
          (if node.has_min_max
            then update_constraint c node.minimum_value node.maximum_value
            else c)
          rs
          nodes
          mask
          rest
      → BitAt c rs (node ∷ nodes) (m ∷ mask) ((if node_refuted c rs node then false else m) ∷ rest)
  BitAt-suc c rs node nodes m mask rest at zero m' node' e f = cc
  BitAt-suc c rs node nodes m mask rest at (suc b) m' node' e f =
      at b m' node' e f
      ∙ ap (λ u. some (if node'.has_min_max && predicate_refuted_by (u ∷ []) rs then false else m'))
          (update_twice c node.minimum_value node.maximum_value node.has_min_max node'.minimum_value
            node'.maximum_value)

  refute_blocks-at :
      (c : BoolExpr Datum) (rs : List RestrictInfo) (nodes : List (ColumnBlockSkipNode Datum))
      (mask : List Bool)
      → length mask ≤ length nodes
      → Succeeds
          (λ mask'. (length mask' ≡ length mask) × BitAt c rs nodes mask mask')
          (refute_blocks planner c rs nodes mask)
  unfolding refute_blocks
  refute_blocks-at c rs nodes [] h = (refl, λ b m node e f. cc)
  refute_blocks-at c rs [] (m ∷ mask) h = absurd (omega arith)
  refute_blocks-at c rs (node ∷ nodes) (m ∷ mask) h =
      let c' =
        if node.has_min_max then update_constraint c node.minimum_value node.maximum_value else c in
      let (rest, e, h') =
        value_of (refute_blocks planner c' rs nodes mask)
          (refute_blocks-at c' rs nodes mask (omega arith)) in
      rw e (ap suc h'.0, BitAt-suc c rs node nodes m mask rest h'.1)

  refute_column-at :
      (skip : StripeSkipList Datum) (rs : List RestrictInfo) (v : Var)
      (f : Option (Comparison Datum)) (mask : List Bool) (b : ℕ) (m : Bool)
      → length mask ≤ length (elements_at skip.skip_nodes (column_index v))
      → b < length mask
      → get_elem? mask b ≡ some m
      → Succeeds
          (λ mask'.
            (length mask' ≡ length mask)
            × (get_elem? mask' b ≡ some (if column_refutes skip rs b v f then false else m)))
          (refute_column planner skip rs v f mask)
  unfolding refute_column
  refute_column-at skip rs v none mask b m h lt e = (refl, e)
  refute_column-at skip rs v (some f) mask b m h lt e =
      let nodes = elements_at skip.skip_nodes (column_index v) in
      let (node, has) = get_elem?-eq-some nodes b (omega arith) in
      let (mask', e', h') =
        value_of (refute_blocks planner (build_base_constraint planner v) rs nodes mask)
          (refute_blocks-at (build_base_constraint planner v) rs nodes mask h) in
      rw (e', has) (h'.0, h'.1 b m node e has)

  refute_columns-at :
      (skip : StripeSkipList Datum) (rs : List RestrictInfo) (vars : List Var) (mask : List Bool)
      (b : ℕ) (m : Bool)
      → HasNodes skip vars
      → length mask ≡ skip.block_count
      → b < skip.block_count
      → get_elem? mask b ≡ some m
      → Succeeds
          (λ mask'.
            (length mask' ≡ length mask)
            × (get_elem? mask' b ≡ some (if any_refutes skip rs b vars then false else m)))
          (refute_columns planner skip rs vars mask)
  unfolding refute_columns
  refute_columns-at skip rs [] mask b m h len lt e = (refl, e)
  refute_columns-at skip rs (v ∷ vs) mask b m h len lt e =
      let x = column_refutes skip rs b v (comparison_of v) in
      let (mask1, e1, h1) = value_of (refute_column planner skip rs v (comparison_of v) mask) (
        refute_column-at skip rs v (comparison_of v) mask b m (omega (arith, h.0)) (omega arith)
          e) in
      let (mask2, e2, h2) =
        value_of (refute_columns planner skip rs vs mask1) (
          refute_columns-at skip rs vs mask1 b (if x then false else m) h.1 (h1.0 ∙ len) lt h1.1) in
      rw (e1, e2) (h2.0 ∙ h1.0, h2.1 ∙ or_chain x (any_refutes skip rs b vs) m)
    where
      or_chain :
          (x y m : Bool)
          → some (if y then false else (if x then false else m))
            ≡ some (if x || y then false else m)
      or_chain true true m = refl
      or_chain true false m = refl
      or_chain false y m = refl

  -- Where the projected columns have a node for every block, the mask of the selected blocks has a
  -- bit for every block, and a block is selected exactly if no projected column with a comparison
  -- function has a node with a minimum and a maximum whose constraint the planner refutes.
  pub selected_block_mask-eq :
      (skip : StripeSkipList Datum) (vars : List Var) (clauses : List Expr) (b : ℕ)
      → HasNodes skip vars
      → b < skip.block_count
      → Succeeds
          (λ mask.
            (length mask ≡ skip.block_count)
            × (get_elem? mask b
                ≡ some (not (any_refutes skip (build_restrict_info_list planner clauses) b vars))))
          (selected_block_mask planner skip vars clauses)
  unfolding selected_block_mask
  selected_block_mask-eq skip vars clauses b h lt =
      let rs = build_restrict_info_list planner clauses in
      let all = replicate skip.block_count true in
      let (mask, e, h') = value_of (refute_columns planner skip rs vars all) (
        refute_columns-at skip rs vars all b true h (length-replicate skip.block_count true) lt
          (get_elem?-replicate skip.block_count b true lt)) in
      rw e
        (h'.0 ∙ length-replicate skip.block_count true, h'.1 ∙ negated (any_refutes skip rs b vars))
    where
      negated : (x : Bool) → some (if x then false else true) ≡ some (not x)
      negated true = refl
      negated false = refl
