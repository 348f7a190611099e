-- ===== src/Writer/Invariant/Blocks.antt =====
-- The loops of `FlushStripe` over the blocks of a column meet only full blocks.
use cstore_fdw.Prelude.{
  ℕ, zero, suc, ◌≤◌, ◌≡◌, refl, ◌∙◌, ap, true, Option, List, [], ◌∷◌, arith, length, All,
}
use cstore_fdw.Types.{ColumnBlockSkipNode}
use cstore_fdw.Writer.{ColumnBlockBuffers, WriteColumn}
use cstore_fdw.Writer.Blocks.{
  add_u64, place_blocks, place_column, block_chunks, column_chunks, data_chunks,
}
use cstore_fdw.Writer.Invariant.{is_set, IsFull, Filled, IsColumn}
use cstore_fdw.Writer.Invariant.Column.{Option-set, Succeeds, value_of}

block_chunks-ok :
    (buffer : ColumnBlockBuffers → Option (List ℕ)) (n : ℕ) (bs : List ColumnBlockBuffers)
    → ((b : ColumnBlockBuffers) → IsFull b → is_set (buffer b) ≡ true)
    → Filled n bs
    → Succeeds (λ chunks. length chunks ≡ n) (block_chunks buffer n bs)
unfolding block_chunks
block_chunks-ok buffer zero bs h f = refl
block_chunks-ok buffer (suc n) [] h f = absurd f
block_chunks-ok buffer (suc n) (b ∷ bs) h f =
    let (chunk, e) = Option-set (buffer b) (h b f.0) in
    let (rest, r, same) = value_of (block_chunks buffer n bs) (block_chunks-ok buffer n bs h f.1) in
    rw (e, r) (ap suc same)

module _ {Datum : Type 0} where
  place_blocks-length :
      (n exists_offset value_offset : ℕ) (nodes : List (ColumnBlockSkipNode Datum))
      (bs : List ColumnBlockBuffers)
      → n ≤ length nodes
      → Filled n bs
      → Succeeds
          (λ nodes'. length nodes' ≡ length nodes)
          (place_blocks n exists_offset value_offset nodes bs)
  unfolding place_blocks
  place_blocks-length zero eo vo nodes bs h f = refl
  place_blocks-length (suc n) eo vo [] bs h f = absurd (omega arith)
  place_blocks-length (suc n) eo vo (node ∷ nodes) [] h f = absurd f
  place_blocks-length (suc n) eo vo (node ∷ nodes) (b ∷ bs) h f =
      let (exists, e) = Option-set b.exists_buffer f.0.0 in
      let (values, v) = Option-set b.value_buffer f.0.1 in
      let eo' = add_u64 eo (length exists) in
      let vo' = add_u64 vo (length values) in
      let (rest, r, same) =
        value_of (place_blocks n eo' vo' nodes bs)
          (place_blocks-length n eo' vo' nodes bs (omega arith) f.1) in
      rw (e, v, r) (ap suc same)

  pub place_column-IsColumn :
      (rows blocks n : ℕ) (c : WriteColumn Datum)
      → IsColumn rows blocks n c
      → n ≤ blocks
      → Succeeds (IsColumn rows blocks n) (place_column n c)
  unfolding place_column
  place_column-IsColumn rows blocks n c h fits =
      let (nodes, e, same) = value_of (place_blocks n 0 0 c.skip_nodes c.block_buffers) (
        place_blocks-length n 0 0 c.skip_nodes c.block_buffers (omega (arith, h.nodes_sized))
          h.filled) in
      rw e (record {
        exists_sized = h.exists_sized;
        has_buffer = h.has_buffer;
        nodes_sized = same ∙ h.nodes_sized;
        buffers_sized = h.buffers_sized;
        filled = h.filled;
      })

  pub data_chunks-ok :
      (rows blocks n : ℕ) (cs : List (WriteColumn Datum))
      → All (IsColumn rows blocks n) cs
      → Succeeds (λ chunks. Unit {0}) (data_chunks n cs)
  unfolding data_chunks column_chunks
  data_chunks-ok rows blocks n [] h = tt
  data_chunks-ok rows blocks n (c ∷ cs) h =
      let (exists, e, _) =
        value_of (block_chunks (λ b. b.exists_buffer) n c.block_buffers) (
          block_chunks-ok (λ b. b.exists_buffer) n c.block_buffers (λ b full. full.0) h.0.filled) in
      let (values, v, _) =
        value_of (block_chunks (λ b. b.value_buffer) n c.block_buffers)
          (block_chunks-ok (λ b. b.value_buffer) n c.block_buffers (λ b full. full.1) h.0.filled) in
      let (rest, r, _) = value_of (data_chunks n cs) (data_chunks-ok rows blocks n cs h.1) in
      rw (e, v, r) tt
