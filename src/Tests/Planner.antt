-- ===== src/Tests/Planner.antt =====
-- A planner that meets the laws asked of PostgreSQL's: all types are ordered by the first byte, and
-- the qualifiers ask that a column is above a number.
use cstore_fdw.Prelude.{
  ℕ, ◌+◌, ◌-◌, ◌%◌, ◌^◌, ◌<◌, ◌≡◌, ap, ◌∙◌, inl, inr, Bool, true, false, not, ◌&&◌, ◌||◌, Option,
  some, List, [], ◌∷◌, map, arith, leb, ◌==◌, if◌then◌else◌, get_or, All, Bool-cases, get_elem?,
}
use cstore_fdw.Prelude.Int.{ℤ, pos, negsuc, is_positive}
use cstore_fdw.Reader.{Var, joined_option}
use cstore_fdw.Reader.Constraints.{BoolExpr, Planner, PlannerLaws, cell}

abbrev value : List ℕ → ℕ
value d = get_or d 0 0

abbrev difference : ℕ → List ℕ → List ℕ → ℤ
difference collation x y = if leb (value y) (value x) then pos (value x - value y) else negsuc 0

-- `value > bound`
pub record Above : Type 0 where
  pub column : Var
  pub bound : ℕ

-- 2 is the function of `<=`, 4 that of `>=`.
abbrev call_operator : ℕ → ℕ → List ℕ → List ℕ → Bool
call_operator f collation x y = if f == 2 then leb (value x) (value y) else leb (value y) (value x)

-- Below the bound are all values up to the maximum.
abbrev refutes : BoolExpr (List ℕ) → Above → Bool
refutes c q =
    c.less_than_expr.opfuncid == 2
    && (c.less_than_expr.left.varattno == q.column.varattno
        && leb (value c.less_than_expr.right.constvalue) q.bound)

abbrev any_of : BoolExpr (List ℕ) → List Above → Bool
any_of c [] = false
any_of c (q ∷ qs) = refutes c q || any_of c qs

abbrev refuted_by_all : List (BoolExpr (List ℕ)) → List Above → Bool
refuted_by_all [] qs = false
refuted_by_all (c ∷ cs) qs = any_of c qs

abbrev pub planner : Planner (List ℕ)
planner = record {
  Expr = Above;
  RestrictInfo = Above;
  btree_am_oid = 403;
  btorder_proc = 1;
  bt_less_equal_strategy = 2;
  bt_greater_equal_strategy = 4;
  get_default_op_class = λ t am. 7;
  get_opclass_family = λ c. 8;
  get_opfamily_proc = λ f l r n. 9;
  get_opfamily_member = λ f l r strategy. strategy;
  get_opcode = λ op. op;
  get_func_rettype = λ f. 16;
  fmgr_info = λ f. difference;
  make_null_const = λ t m c. record {
    consttype = t;
    consttypmod = m;
    constcollid = c;
    constvalue = [];
    constisnull = true;
    constbyval = true;
  };
  make_simple_restrictinfo = λ q. q;
  predicate_refuted_by = refuted_by_all;
  default_constant = λ text. some (record {
    consttype = 23;
    consttypmod = 0;
    constcollid = 0;
    constvalue = text;
    constisnull = false;
    constbyval = true;
  });
}

abbrev IsAbove : Above → List (Option (List ℕ)) → Type 0
IsAbove q row = (d : List ℕ) × (cell row q.column ≡ some d) × (q.bound < value d)

abbrev Fails : BoolExpr (List ℕ) → List (Option (List ℕ)) → Type 0
Fails c row =
    (d : List ℕ) × (cell row c.less_than_expr.left ≡ some d)
    × (call_operator c.less_than_expr.opfuncid c.less_than_expr.inputcollid d
          c.less_than_expr.right.constvalue
        ≡ false)

one-Fails :
    (c : BoolExpr (List ℕ)) (q : Above) (row : List (Option (List ℕ)))
    → refutes c q ≡ true
    → IsAbove q row
    → Fails c row
one-Fails c q row e (d, at, above) =
    let same : c.less_than_expr.left.varattno ≡ q.column.varattno = ground arith in
    (d, ap (λ n. joined_option (get_elem? row ((n + 2 ^ 32 - 1) % 2 ^ 32))) same ∙ at, ground arith)

pub refuted_lem :
    (c : BoolExpr (List ℕ)) (qs : List Above) (row : List (Option (List ℕ)))
    → any_of c (map (λ q. q) qs) ≡ true
    → All (λ q. IsAbove q row) qs
    → Fails c row
refuted_lem c [] row e h = cc
refuted_lem c (q ∷ qs) row e h = elim (Bool-cases (refutes c q)) [
  | inl r ↦ one-Fails c q row r h.0
  | inr r ↦ refuted_lem c qs row (rw r at e) h.1
]

pub less_equal_lem : (x y : List ℕ) → leb (value x) (value y) ≡ not (is_positive (difference 0 x y))
less_equal_lem x y = ground arith

pub greater_equal_lem :
    (x y : List ℕ) → leb (value y) (value x) ≡ not (is_positive (difference 0 y x))
greater_equal_lem x y = ground arith

abbrev pub planner_laws : PlannerLaws planner
planner_laws = record {
  Holds = IsAbove;
  call = call_operator;
  less_equal = λ t exists collation x y. less_equal_lem x y;
  greater_equal = λ t exists collation x y. greater_equal_lem x y;
  refuted = λ c qs row l g e h. inl (refuted_lem c qs row e h);
}
