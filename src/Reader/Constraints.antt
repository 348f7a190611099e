-- ===== src/Reader/Constraints.antt =====
-- The constraint on a column that a block's minimum and maximum give (cstore_reader.c):
-- `GetFunctionInfoOrNull`, `GetOperatorByType`, `MakeOpExpression`, `BuildBaseConstraint`,
-- `UpdateConstraint` and `BuildRestrictInfoList`. The catalogs and the planner of PostgreSQL are the
-- parameter `Planner`.
use cstore_fdw.Prelude.{
  ℕ, ◌≡◌, ◌≢◌, Bool, true, false, not, Option, none, some, List, [], ◌∷◌, map, ◌==◌, if◌then◌else◌,
  get_elem?, All,
}
use cstore_fdw.Prelude.{◌⊎◌}
use cstore_fdw.Prelude.Int.{is_positive}
use cstore_fdw.SkipNode.{Comparison}
use cstore_fdw.Reader.{Var, column_index, joined_option}

-- `Const`
pub record Const (Datum : Type 0) : Type 0 where
  pub consttype : ℕ
  pub consttypmod : ℕ
  pub constcollid : ℕ
  pub constvalue : Datum
  pub constisnull : Bool
  pub constbyval : Bool

-- An `OpExpr` over a column and a constant.
pub record OpExpr (Datum : Type 0) : Type 0 where
  pub opno : ℕ
  pub opfuncid : ℕ
  pub opresulttype : ℕ
  pub inputcollid : ℕ
  pub left : Var
  pub right : Const Datum

-- The `BoolExpr` that `make_and_qual` makes of two operators: its two arguments.
pub record BoolExpr (Datum : Type 0) : Type 0 where
  pub less_than_expr : OpExpr Datum
  pub greater_than_expr : OpExpr Datum

abbrev pub invalid_oid : ℕ
invalid_oid = 0

-- PostgreSQL's catalogs and planner. `Expr` is a qualifier of the query; `fmgr_info` gives the
-- function with an identifier, and `default_constant` the value of `eval_const_expressions` on
-- the tree that `stringToNode` reads, where that is a `Const`.
pub record Planner (Datum : Type 0) : Type 1 where
  pub Expr : Type 0
  pub RestrictInfo : Type 0
  pub btree_am_oid : ℕ
  pub btorder_proc : ℕ
  pub bt_less_equal_strategy : ℕ
  pub bt_greater_equal_strategy : ℕ
  pub get_default_op_class : ℕ → ℕ → ℕ
  pub get_opclass_family : ℕ → ℕ
  pub get_opfamily_proc : ℕ → ℕ → ℕ → ℕ → ℕ
  pub get_opfamily_member : ℕ → ℕ → ℕ → ℕ → ℕ
  pub get_opcode : ℕ → ℕ
  pub get_func_rettype : ℕ → ℕ
  pub fmgr_info : ℕ → Comparison Datum
  pub make_null_const : ℕ → ℕ → ℕ → Const Datum
  pub make_simple_restrictinfo : Expr → RestrictInfo
  pub predicate_refuted_by : List (BoolExpr Datum) → List RestrictInfo → Bool
  pub default_constant : List ℕ → Option (Const Datum)

-- `record e { constvalue = …; constisnull = false; constbyval = true }` in the right operand
abbrev pub set_constant : {Datum : Type 0} → OpExpr Datum → Datum → OpExpr Datum
set_constant e value = record e {
  right = record (e.right) { constvalue = value; constisnull = false; constbyval = true };
}

unfoldable pub update_constraint :
    {Datum : Type 0} → BoolExpr Datum → Datum → Datum → BoolExpr Datum
update_constraint c minimum maximum = record c {
  less_than_expr = set_constant c.less_than_expr maximum;
  greater_than_expr = set_constant c.greater_than_expr minimum;
}

module _ {Datum : Type 0} (planner : Planner Datum) where
  open planner use {
    Expr, RestrictInfo, btree_am_oid, bt_less_equal_strategy, bt_greater_equal_strategy,
    get_default_op_class, get_opclass_family, get_opfamily_proc, get_opfamily_member, get_opcode,
    get_func_rettype, fmgr_info, make_null_const, make_simple_restrictinfo,
  }

  unfoldable pub get_function_info_or_null : ℕ → ℕ → ℕ → Option (Comparison Datum)
  get_function_info_or_null type_id access_method_id procedure_id =
      let operator_class = get_default_op_class type_id access_method_id in
      let family = get_opclass_family operator_class in
      let operator = get_opfamily_proc family type_id type_id procedure_id in
      if operator_class == invalid_oid
      then none
      else if family == invalid_oid
      then none
      else if operator == invalid_oid
      then none
      else some (fmgr_info operator)

  unfoldable pub get_operator_by_type : ℕ → ℕ → ℕ → ℕ
  get_operator_by_type type_id access_method_id strategy =
      get_opfamily_member (get_opclass_family (get_default_op_class type_id access_method_id))
        type_id type_id strategy

  unfoldable pub make_op_expression : Var → ℕ → OpExpr Datum
  unfolding get_operator_by_type
  make_op_expression v strategy =
      let operator = get_operator_by_type v.vartype btree_am_oid strategy in
      record {
        opno = operator;
        opfuncid = get_opcode operator;
        opresulttype = get_func_rettype (get_opcode operator);
        inputcollid = v.varcollid;
        left = v;
        right = make_null_const v.vartype v.vartypmod v.varcollid;
      }

  unfoldable pub build_base_constraint : Var → BoolExpr Datum
  unfolding make_op_expression
  build_base_constraint v = record {
    less_than_expr = make_op_expression v bt_less_equal_strategy;
    greater_than_expr = make_op_expression v bt_greater_equal_strategy;
  }

  unfoldable pub build_restrict_info_list : List Expr → List RestrictInfo
  build_restrict_info_list clauses = map make_simple_restrictinfo clauses

-- The cell of a row in a column.
abbrev pub cell : {Datum : Type 0} → List (Option Datum) → Var → Option Datum
cell row v = joined_option (get_elem? row (column_index v))

-- What is documented of the planner and of btree operator families. `Holds e row` says that the
-- qualifier is true for a row, and `call` is the value of an operator's function.
pub record PlannerLaws {Datum : Type 0} (planner : Planner Datum) : Type 1 where
  pub Holds : planner.Expr → List (Option Datum) → Type 0
  pub call : ℕ → ℕ → Datum → Datum → Bool
  -- The operators of a btree family agree with its comparison function.
  pub less_equal :
      (type_id : ℕ)
      → let family =
          planner.get_opclass_family (planner.get_default_op_class type_id planner.btree_am_oid) in
        let order = planner.get_opfamily_proc family type_id type_id planner.btorder_proc in
        order ≢ invalid_oid
        → (collation : ℕ) (x y : Datum)
        → call
            (planner.get_opcode
              (planner.get_opfamily_member family type_id type_id planner.bt_less_equal_strategy))
            collation
            x
            y
          ≡ not (is_positive (planner.fmgr_info order collation x y))
  pub greater_equal :
      (type_id : ℕ)
      → let family =
          planner.get_opclass_family (planner.get_default_op_class type_id planner.btree_am_oid) in
        let order = planner.get_opfamily_proc family type_id type_id planner.btorder_proc in
        order ≢ invalid_oid
        → (collation : ℕ) (x y : Datum)
        → call
            (planner.get_opcode (
              planner.get_opfamily_member family type_id type_id planner.bt_greater_equal_strategy))
            collation
            x
            y
          ≡ not (is_positive (planner.fmgr_info order collation y x))
  -- Strong refutation: where the qualifiers are true for a row, the predicate is false for it, so
  -- the column is not null and one of the two operators is false.
  pub refuted :
      (c : BoolExpr Datum) (clauses : List planner.Expr) (row : List (Option Datum))
      → c.less_than_expr.right.constisnull ≡ false
      → c.greater_than_expr.right.constisnull ≡ false
      → planner.predicate_refuted_by (c ∷ []) (map planner.make_simple_restrictinfo clauses) ≡ true
      → All (λ q. Holds q row) clauses
      → ((d : Datum) × (cell row c.less_than_expr.left ≡ some d)
          × (call c.less_than_expr.opfuncid c.less_than_expr.inputcollid d
                c.less_than_expr.right.constvalue
              ≡ false))
        ⊎ ((d : Datum) × (cell row c.greater_than_expr.left ≡ some d)
            × (call c.greater_than_expr.opfuncid c.greater_than_expr.inputcollid d
                  c.greater_than_expr.right.constvalue
                ≡ false))
