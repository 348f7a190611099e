-- ===== src/Reader/Selection.antt =====
-- The choice of the blocks to read (cstore_reader.c): `SelectedBlockMask`, `SelectedBlockSkipList`
-- and `StripeSkipListRowCount`.
pub mod Mask
pub mod Soundness
use cstore_fdw.Prelude.{
  ℕ, zero, suc, ◌+◌, ◌%◌, ◌^◌, Bool, true, false, not, ◌&&◌, Option, none, some, List, [], ◌∷◌,
  if◌then◌else◌, replicate, drop,
}
use cstore_fdw.Result.{Result, ok, err, fault, ◌>>=◌}
use cstore_fdw.SkipNode.{Comparison}
use cstore_fdw.Types.{ColumnBlockSkipNode}
use cstore_fdw.Reader.{Var, column_index, StripeSkipList, elements, elements_at}
use cstore_fdw.Reader.Constraints.{
  Planner, BoolExpr, update_constraint, get_function_info_or_null, build_base_constraint,
  build_restrict_info_list,
}

module _ {Datum : Type 0} (planner : Planner Datum) where
  open planner use {Expr, RestrictInfo, btree_am_oid, btorder_proc, predicate_refuted_by}

  -- The loop over the blocks of a column, of which the mask still has as many as are left. The
  -- constraint is updated in place.
  unfoldable pub refute_blocks :
      BoolExpr Datum
      → List RestrictInfo
      → List (ColumnBlockSkipNode Datum)
      → List Bool
      → Result (List Bool)
  refute_blocks constraint restrictions nodes [] = ok []
  refute_blocks constraint restrictions [] (m ∷ mask) = err fault
  refute_blocks constraint restrictions (node ∷ nodes) (m ∷ mask) =
      let updated = update_constraint constraint node.minimum_value node.maximum_value in
      let refuted = node.has_min_max && predicate_refuted_by (updated ∷ []) restrictions in
      do
        rest ←
            refute_blocks (if node.has_min_max then updated else constraint) restrictions nodes mask
        ok ((if refuted then false else m) ∷ rest)

  -- one round of the loop over the projected columns
  unfoldable pub refute_column :
      StripeSkipList Datum
      → List RestrictInfo
      → Var
      → Option (Comparison Datum)
      → List Bool
      → Result (List Bool)
  refute_column skip_list restrictions v none mask = ok mask
  refute_column skip_list restrictions v (some comparison) mask =
      refute_blocks (build_base_constraint planner v) restrictions
        (elements_at skip_list.skip_nodes (column_index v)) mask

  unfoldable pub refute_columns :
      StripeSkipList Datum → List RestrictInfo → List Var → List Bool → Result (List Bool)
  refute_columns skip_list restrictions [] mask = ok mask
  refute_columns skip_list restrictions (v ∷ vs) mask = do
    mask' ←
        refute_column skip_list restrictions v
          (get_function_info_or_null planner v.vartype btree_am_oid btorder_proc) mask
    refute_columns skip_list restrictions vs mask'

  unfoldable pub selected_block_mask :
      StripeSkipList Datum → List Var → List Expr → Result (List Bool)
  selected_block_mask skip_list vars clauses =
      refute_columns skip_list (build_restrict_info_list planner clauses) vars
        (replicate skip_list.block_count true)

-- the loop that counts the blocks
abbrev pub count_selected : List Bool → ℕ
count_selected [] = 0
count_selected (true ∷ mask) = suc (count_selected mask)
count_selected (false ∷ mask) = count_selected mask

module _ {Datum : Type 0} where
  -- The loop over the blocks of a column.
  unfoldable pub select_nodes :
      List Bool → List (ColumnBlockSkipNode Datum) → Result (List (ColumnBlockSkipNode Datum))
  select_nodes [] nodes = ok []
  select_nodes (false ∷ mask) nodes = select_nodes mask (drop 1 nodes)
  select_nodes (true ∷ mask) [] = err fault
  select_nodes (true ∷ mask) (node ∷ nodes) = do rest ← select_nodes mask nodes; ok (node ∷ rest)

  -- The nodes of a column; `first` says that it is the first one.
  unfoldable pub select_column :
      Bool
      → Bool
      → List Bool
      → Option (List (ColumnBlockSkipNode Datum))
      → Result (Option (List (ColumnBlockSkipNode Datum)))
  select_column first projected mask nodes =
      if not projected && not first
      then ok none
      else select_nodes mask (elements nodes) >>= λ selected. ok (some selected)

  -- The loop over the columns. The two lists have an entry for each column.
  unfoldable pub select_columns :
      Bool
      → List Bool
      → List Bool
      → List (Option (List (ColumnBlockSkipNode Datum)))
      → Result (List (Option (List (ColumnBlockSkipNode Datum))))
  select_columns first mask [] columns = ok []
  select_columns first mask (p ∷ projected) [] = err fault
  select_columns first mask (p ∷ projected) (c ∷ columns) = do
    selected ← select_column first p mask c
    rest ← select_columns false mask projected columns
    ok (selected ∷ rest)

  unfoldable pub selected_block_skip_list :
      StripeSkipList Datum → List Bool → List Bool → Result (StripeSkipList Datum)
  selected_block_skip_list skip_list projected mask = do
    columns ← select_columns true mask projected skip_list.skip_nodes
    ok (record {
      skip_nodes = columns;
      column_count = skip_list.column_count;
      block_count = count_selected mask;
    })

  -- The loop of `StripeSkipListRowCount`; a block's row count and the sum are `uint32`s.
  unfoldable pub add_row_counts : ℕ → ℕ → List (ColumnBlockSkipNode Datum) → Result ℕ
  add_row_counts total zero nodes = ok total
  add_row_counts total (suc n) [] = err fault
  add_row_counts total (suc n) (node ∷ nodes) =
      add_row_counts ((total + node.row_count % 2 ^ 32) % 2 ^ 32) n nodes

  unfoldable pub stripe_skip_list_row_count : StripeSkipList Datum → Result ℕ
  stripe_skip_list_row_count skip_list =
      add_row_counts 0 skip_list.block_count (elements_at skip_list.skip_nodes 0)
