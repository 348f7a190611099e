-- ===== src/Tests/Selection.antt =====
-- The theorems on the selection and the loading of blocks, at concrete inputs.
use cstore_fdw.Prelude.{
  ℕ, ◌≡◌, refl, true, false, not, none, some, List, [], ◌∷◌, ◌++◌, arith, length, get_elem?,
}
use cstore_fdw.Result.{ok}
use cstore_fdw.Types.{ColumnBlockSkipNode}
use cstore_fdw.Compression.{compression_none, compression_pg_lz}
use cstore_fdw.Writer.{ColumnBlockBuffers}
use cstore_fdw.Writer.Invariant.Column.{Succeeds}
use cstore_fdw.Reader.{Var, StripeSkipList}
use cstore_fdw.Reader.Constraints.{build_restrict_info_list}
use cstore_fdw.Reader.Selection.{selected_block_mask, select_nodes}
use cstore_fdw.Reader.Selection.Mask.{any_refutes, selected_block_mask-eq}
use cstore_fdw.Reader.Selection.Soundness.{selected_block_mask_sound}
use cstore_fdw.Reader.Loading.{load_column_buffers}
use cstore_fdw.Reader.Loading.Located.{chosen, load_column_buffers-chosen}
use cstore_fdw.Tests.Planner.{planner, planner_laws, Above}

abbrev node : ℕ → ℕ → ColumnBlockSkipNode (List ℕ)
node low high = record {
  has_min_max = true;
  minimum_value = low ∷ [];
  maximum_value = high ∷ [];
  row_count = 1000;
  exists_block_offset = 0;
  value_block_offset = 0;
  exists_length = 2;
  value_length = 3;
  value_compression_type = compression_none;
}

abbrev skip_list : StripeSkipList (List ℕ)
skip_list = record {
  skip_nodes = some (node 1 4 ∷ node 6 9 ∷ []) ∷ none ∷ [];
  column_count = 2;
  block_count = 2;
}

abbrev column : Var
column = record { varattno = 1; vartype = 23; vartypmod = 0; varcollid = 0 }

abbrev above_five : Above
above_five = record { column = column; bound = 5 }

-- The block with the values from 1 to 4 is skipped.
mask_example :
    Succeeds
      (λ mask.
        (length mask ≡ 2)
        × (get_elem? mask 0
            ≡ some (
                not (
                  any_refutes planner skip_list
                    (build_restrict_info_list planner (above_five ∷ []))
                    0
                    (column ∷ [])))))
      (selected_block_mask planner skip_list (column ∷ []) (above_five ∷ []))
mask_example =
    selected_block_mask-eq planner skip_list (column ∷ []) (above_five ∷ []) 0 (omega arith, tt)
      (omega arith)

-- The block with the values from 6 to 9 has a row with the value 7.
sound_example :
    Succeeds
      (λ mask. get_elem? mask 1 ≡ some true)
      (selected_block_mask planner skip_list (column ∷ []) (above_five ∷ []))
unfolding cstore_fdw.Reader.Constraints.get_function_info_or_null
sound_example =
    selected_block_mask_sound planner planner_laws skip_list (column ∷ []) (above_five ∷ [])
      (some (7 ∷ []) ∷ none ∷ []) 1 (omega arith, tt) (omega arith) ((λ set d at. ground arith), tt)
      ((7 ∷ [], refl, omega arith), tt)

abbrev placed : List (ColumnBlockSkipNode (List ℕ))
placed =
    node 1 4
    ∷ record (node 6 9) {
      exists_block_offset = 2;
      value_block_offset = 3;
      exists_length = 1;
      value_length = 2;
      value_compression_type = compression_pg_lz;
    }
    ∷ []

abbrev buffers : List ColumnBlockBuffers
buffers =
    record {
      exists_buffer = some (255 ∷ 3 ∷ []);
      value_buffer = some (1 ∷ 2 ∷ 3 ∷ []);
      value_compression_type = compression_none;
    }
    ∷ record {
      exists_buffer = some (7 ∷ []);
      value_buffer = some (9 ∷ 9 ∷ []);
      value_compression_type = compression_pg_lz;
    }
    ∷ []

-- Only the second of two blocks is loaded.
chosen_example :
    Succeeds
      (λ selected.
        load_column_buffers
          ((5 ∷ 5 ∷ []) ++ ((255 ∷ 3 ∷ 7 ∷ []) ++ ((1 ∷ 2 ∷ 3 ∷ 9 ∷ 9 ∷ []) ++ (8 ∷ []))))
          selected
          1
          2
          5
        ≡ ok (chosen (false ∷ true ∷ []) buffers))
      (select_nodes (false ∷ true ∷ []) placed)
chosen_example =
    load_column_buffers-chosen (255 ∷ 3 ∷ 7 ∷ []) (1 ∷ 2 ∷ 3 ∷ 9 ∷ 9 ∷ []) (5 ∷ 5 ∷ []) (8 ∷ [])
      (false ∷ true ∷ []) placed buffers
      (refl, refl, refl, omega arith, omega arith, (refl, refl, refl, omega arith, omega arith, tt))
      ((omega arith, omega arith), ((omega arith, omega arith), tt)) (omega arith)
