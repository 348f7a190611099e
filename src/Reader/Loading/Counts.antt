-- ===== src/Reader/Loading/Counts.antt =====
-- The number of rows of a loaded stripe is a `uint32`.
use cstore_fdw.Prelude.{ℕ, zero, suc, ◌^◌, ◌<◌, ◌≡◌, List, [], ◌∷◌, arith, subst, length}
use cstore_fdw.Result.{Result, ok, err, ◌>>=◌}
use cstore_fdw.Postgres.{Attribute, TupleMacros}
use cstore_fdw.Protobuf.{Protobuf}
use cstore_fdw.Types.{StripeMetadata, ColumnBlockSkipNode}
use cstore_fdw.Writer.Blocks.{add_u64}
use cstore_fdw.Reader.{Var, StripeBuffers, elements_at}
use cstore_fdw.Reader.Columns.{projected_column_mask}
use cstore_fdw.Reader.Constraints.{Planner}
use cstore_fdw.Reader.Selection.{
  add_row_counts, stripe_skip_list_row_count, selected_block_mask, selected_block_skip_list,
}
use cstore_fdw.Reader.Loading.{
  load_filtered_stripe_buffers, load_stripe_footer, load_stripe_skip_list, load_columns,
}

-- The result, if there is one, has this property.
abbrev pub WhenOk : {A : Type 0} → (A → Type 0) → Result A → Type 0
WhenOk P (ok a) = P a
WhenOk P (err e) = Unit {0}

pub WhenOk-bind :
    {A B : Type 0} (P : B → Type 0) (step : Result A) (next : A → Result B)
    → ((a : A) → WhenOk P (next a))
    → WhenOk P (step >>= next)
WhenOk-bind P (ok a) next h = h a
WhenOk-bind P (err e) next h = tt

pub WhenOk-then :
    {A B : Type 0} (Q : A → Type 0) (P : B → Type 0) (step : Result A) (next : A → Result B)
    → WhenOk Q step
    → ((a : A) → Q a → WhenOk P (next a))
    → WhenOk P (step >>= next)
WhenOk-then Q P (ok a) next q h = h a q
WhenOk-then Q P (err e) next q h = tt

pub WhenOk-ok : {A : Type 0} (P : A → Type 0) (r : Result A) (a : A) → WhenOk P r → r ≡ ok a → P a
WhenOk-ok P r a h e = subst (WhenOk P) e h

add_row_counts-lt :
    {Datum : Type 0} (n total : ℕ) (nodes : List (ColumnBlockSkipNode Datum))
    → total < 2 ^ 32
    → WhenOk (λ rows. rows < 2 ^ 32) (add_row_counts total n nodes)
unfolding add_row_counts
add_row_counts-lt zero total nodes h = h
add_row_counts-lt (suc n) total [] h = tt
add_row_counts-lt (suc n) total (node ∷ nodes) h = add_row_counts-lt n _ nodes (omega arith)

module _ (macros : TupleMacros) (protobuf : Protobuf) (planner : Planner macros.Datum) where
  pub load_filtered_stripe_buffers-lt :
      (content : List ℕ) (s : StripeMetadata) (attributes : List Attribute) (vars : List Var)
      (clauses : List planner.Expr)
      → WhenOk
          (λ stripe. stripe.row_count < 2 ^ 32)
          (load_filtered_stripe_buffers macros protobuf planner content s attributes vars clauses)
  unfolding load_filtered_stripe_buffers stripe_skip_list_row_count
  load_filtered_stripe_buffers-lt content s attributes vars clauses =
      WhenOk-bind Small (load_stripe_footer macros protobuf content s (length attributes)) _
        (λ footer.
          WhenOk-bind Small (projected_column_mask (length attributes) vars) _ (λ projected.
            WhenOk-bind Small
              (load_stripe_skip_list macros protobuf content s footer projected attributes) _
              (λ skip. WhenOk-bind Small (selected_block_mask planner skip vars clauses) _ (λ mask.
                WhenOk-bind Small (selected_block_skip_list skip projected mask) _ (λ selected.
                  WhenOk-bind Small
                    (load_columns content selected.block_count
                      (add_u64 s.file_offset s.skip_list_length) footer.exists_sizes
                      footer.value_sizes projected selected.skip_nodes)
                    _
                    (λ buffers.
                      WhenOk-then (λ rows. rows < 2 ^ 32) Small
                        (stripe_skip_list_row_count selected) _
                        (add_row_counts-lt selected.block_count 0
                          (elements_at selected.skip_nodes 0) (omega arith))
                        (λ rows lt. lt)))))))
    where
      Small : StripeBuffers → Type 0
      Small stripe = stripe.row_count < 2 ^ 32
