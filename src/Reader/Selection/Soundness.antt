-- ===== src/Reader/Selection/Soundness.antt =====
-- The selection of blocks (`SelectedBlockMask`, cstore_reader.c) loses no row.
use cstore_fdw.Prelude.{
  ℕ, ◌<◌, ◌≡◌, ◌≢◌, refl, ap, sym, ◌∙◌, inl, inr, Bool, true, false, not, ◌&&◌, Option, none, some,
  List, [], ◌∷◌, arith, get_elem?, All, Bool-cases,
}
use cstore_fdw.Prelude.Int.{is_positive}
use cstore_fdw.SkipNode.{Comparison}
use cstore_fdw.Types.{ColumnBlockSkipNode}
use cstore_fdw.Writer.Invariant.Column.{Succeeds, value_of}
use cstore_fdw.Reader.{Var, column_index, StripeSkipList, elements_at}
use cstore_fdw.Reader.Constraints.{
  Planner, PlannerLaws, BoolExpr, update_constraint, get_function_info_or_null,
  build_base_constraint, build_restrict_info_list, make_op_expression, get_operator_by_type, cell,
  invalid_oid,
}
use cstore_fdw.Reader.Selection.{selected_block_mask}
use cstore_fdw.Reader.Selection.Mask.{
  comparison_of, node_refuted, refuted_by, column_refutes, any_refutes, HasNodes,
  selected_block_mask-eq,
}

module _ {Datum : Type 0} (planner : Planner Datum) where
  open planner use {Expr, RestrictInfo, btree_am_oid, btorder_proc}

  module _ (laws : PlannerLaws planner) where
    open laws use {Holds, call}

    -- The node bounds the row's cell in the column of `v`.
    abbrev pub NodeBounds :
        Var
        → List (Option Datum)
        → Option (Comparison Datum)
        → Option (ColumnBlockSkipNode Datum)
        → Type 0
    NodeBounds v row (some f) (some node) =
        node.has_min_max ≡ true
        → (d : Datum) → cell row v ≡ some d
        → (is_positive (f v.varcollid node.minimum_value d) ≡ false)
          × (is_positive (f v.varcollid d node.maximum_value) ≡ false)
    NodeBounds v row _ _ = Unit {0}

    -- The nodes of the block `b` bound the cells of the row in all projected columns.
    abbrev pub BlockBounds : StripeSkipList Datum → ℕ → List (Option Datum) → List Var → Type 0
    BlockBounds skip b row vars =
        All
          (λ v.
            NodeBounds v row (comparison_of planner v)
              (get_elem? (elements_at skip.skip_nodes (column_index v)) b))
          vars

    both : (x y : Bool) → (x && y) ≡ true → (x ≡ true) × (y ≡ true)
    both true y e = (refl, e)
    both false y e = cc

    -- The comparison function is that of the type's default btree operator class.
    info-some :
        (type_id : ℕ) (f : Comparison Datum)
        → get_function_info_or_null planner type_id btree_am_oid btorder_proc ≡ some f
        → let family =
            planner.get_opclass_family (planner.get_default_op_class type_id btree_am_oid) in
          let order = planner.get_opfamily_proc family type_id type_id btorder_proc in
          (order ≢ invalid_oid) × (f ≡ planner.fmgr_info order)
    unfolding get_function_info_or_null
    info-some type_id f e = ground arith

    clash : (p q : Bool) → q ≡ not p → q ≡ false → p ≡ false → ⊥
    clash true q e f g = cc
    clash false q e f g = cc

    node-kept :
        (v : Var) (f : Comparison Datum) (node : ColumnBlockSkipNode Datum) (clauses : List Expr)
        (row : List (Option Datum))
        → comparison_of planner v ≡ some f
        → NodeBounds v row (some f) (some node)
        → All (λ q. Holds q row) clauses
        → node_refuted planner
            (build_base_constraint planner v)
            (build_restrict_info_list planner clauses)
            node
          ≡ false
    unfolding build_base_constraint build_restrict_info_list make_op_expression get_operator_by_type
        update_constraint
    node-kept v f node clauses row is_f bounds holds =
        elim (Bool-cases (node_refuted planner base rs node)) [
          | inr e ↦ e
          | inl e ↦
              let (set, refuted) = both node.has_min_max _ e in
              let (exists, same) = info-some v.vartype f is_f in
              elim (laws.refuted filled clauses row refl refl refuted holds) [
                | inl (d, at, failed) ↦ absurd (
                    clash (is_positive (f v.varcollid d node.maximum_value)) _
                      (laws.less_equal v.vartype exists v.varcollid d node.maximum_value
                        ∙ ap (λ g. not (is_positive (g v.varcollid d node.maximum_value)))
                            (sym same))
                      failed (bounds set d at).1)
                | inr (d, at, failed) ↦ absurd (
                    clash (is_positive (f v.varcollid node.minimum_value d)) _
                      (laws.greater_equal v.vartype exists v.varcollid d node.minimum_value
                        ∙ ap (λ g. not (is_positive (g v.varcollid node.minimum_value d)))
                            (sym same))
                      failed (bounds set d at).0)
              ]
        ]
      where
        base : BoolExpr Datum
        base = build_base_constraint planner v

        rs : List RestrictInfo
        rs = build_restrict_info_list planner clauses

        filled : BoolExpr Datum
        filled = update_constraint base node.minimum_value node.maximum_value

    column-kept :
        (skip : StripeSkipList Datum) (v : Var) (f : Option (Comparison Datum))
        (clauses : List Expr) (row : List (Option Datum)) (b : ℕ)
        → comparison_of planner v ≡ f
        → NodeBounds v row f (get_elem? (elements_at skip.skip_nodes (column_index v)) b)
        → All (λ q. Holds q row) clauses
        → column_refutes planner skip (build_restrict_info_list planner clauses) b v f ≡ false
    column-kept skip v none clauses row b is_f bounds holds = refl
    column-kept skip v (some f) clauses row b is_f bounds holds =
        go (get_elem? (elements_at skip.skip_nodes (column_index v)) b) bounds
      where
        go :
            (n : Option (ColumnBlockSkipNode Datum))
            → NodeBounds v row (some f) n
            → refuted_by planner v (build_restrict_info_list planner clauses) n ≡ false
        go none h = refl
        go (some node) h = node-kept v f node clauses row is_f h holds

    none-refutes :
        (skip : StripeSkipList Datum) (vars : List Var) (clauses : List Expr)
        (row : List (Option Datum)) (b : ℕ)
        → BlockBounds skip b row vars
        → All (λ q. Holds q row) clauses
        → any_refutes planner skip (build_restrict_info_list planner clauses) b vars ≡ false
    none-refutes skip [] clauses row b bounds holds = refl
    none-refutes skip (v ∷ vs) clauses row b bounds holds =
        rw
          (
            column-kept skip v (comparison_of planner v) clauses row b refl bounds.0 holds,
            none-refutes skip vs clauses row b bounds.1 holds,
          )
          refl

    -- No row is lost: where the projected columns have a node for every block, a block is selected
    -- if it has a row for which all qualifiers are true and whose cells its nodes bound, null cells
    -- and nodes without a minimum and a maximum bound everything.
    pub selected_block_mask_sound :
        (skip : StripeSkipList Datum) (vars : List Var) (clauses : List Expr)
        (row : List (Option Datum)) (b : ℕ)
        → HasNodes planner skip vars
        → b < skip.block_count
        → BlockBounds skip b row vars
        → All (λ q. Holds q row) clauses
        → Succeeds
            (λ mask. get_elem? mask b ≡ some true)
            (selected_block_mask planner skip vars clauses)
    selected_block_mask_sound skip vars clauses row b h lt bounds holds =
        let (mask, e, h') =
          value_of (selected_block_mask planner skip vars clauses)
            (selected_block_mask-eq planner skip vars clauses b h lt) in
        rw e (h'.1 ∙ ap (λ x. some (not x)) (none-refutes skip vars clauses row b bounds holds))
