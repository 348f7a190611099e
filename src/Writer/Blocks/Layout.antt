-- ===== src/Writer/Blocks/Layout.antt =====
-- The offsets that `FlushStripe` (cstore_writer.c) puts into the skip nodes of a column.
use cstore_fdw.Prelude.{
  ℕ, zero, suc, ◌+◌, ◌^◌, ◌≤◌, ◌<◌, ◌≡◌, refl, sym, ap, subst, Option, some, List, [], ◌∷◌, ◌++◌,
  append_assoc, arith, length, take, drop, take-append, drop-append, length-append,
}
use cstore_fdw.Result.{ok, fault, require, >>=-eq-ok, ok-injective}
use cstore_fdw.Types.{ColumnBlockSkipNode}
use cstore_fdw.Writer.{ColumnBlockBuffers}
use cstore_fdw.Writer.Blocks.{add_u64, place_blocks, block_chunks}
use cstore_fdw.Writer.Invariant.Column.{Succeeds, value_of}

-- The bytes of buffers that are written one behind the other.
abbrev pub joined : List (List ℕ) → List ℕ
joined [] = []
joined (chunk ∷ chunks) = chunk ++ joined chunks

-- Each of the first `n` nodes says where the buffers of its block are among the bytes of the column.
abbrev pub Located :
    {Datum : Type 0}
    → List ℕ
    → List ℕ
    → ℕ
    → List (ColumnBlockSkipNode Datum)
    → List ColumnBlockBuffers
    → Type 0
Located exists values zero nodes bs = Unit {0}
Located exists values (suc n) [] bs = ⊥
Located exists values (suc n) (node ∷ nodes) [] = ⊥
Located exists values (suc n) (node ∷ nodes) (b ∷ bs) =
    (some (take node.exists_length (drop node.exists_block_offset exists)) ≡ b.exists_buffer)
    × (some (take node.value_length (drop node.value_block_offset values)) ≡ b.value_buffer)
    × (node.value_compression_type ≡ b.value_compression_type)
    × (node.exists_block_offset + node.exists_length ≤ length exists)
    × (node.value_block_offset + node.value_length ≤ length values)
    × Located exists values n nodes bs

-- The first chunk of a successful loop, and the rest.
block_chunks-step :
    (buffer : ColumnBlockBuffers → Option (List ℕ)) (n : ℕ) (b : ColumnBlockBuffers)
    (bs : List ColumnBlockBuffers) (chunks : List (List ℕ))
    → block_chunks buffer (suc n) (b ∷ bs) ≡ ok chunks
    → (chunk : List ℕ) × (rest : List (List ℕ)) × (buffer b ≡ some chunk)
      × (block_chunks buffer n bs ≡ ok rest)
      × (chunks ≡ chunk ∷ rest)
unfolding block_chunks
block_chunks-step buffer n b bs chunks h =
    let (chunk, p, q) = >>=-eq-ok (require (buffer b) fault) _ h in
    let (rest, p', q') = >>=-eq-ok (block_chunks buffer n bs) _ q in
    (chunk, rest, ground arith, p', sym (ok-injective q'))

piece :
    (before bytes after : List ℕ)
    → take (length bytes) (drop (length before) (before ++ (bytes ++ after))) ≡ bytes
piece before bytes after =
    rw (drop-append before (bytes ++ after) (length before) refl)
      (take-append bytes after (length bytes) refl)

within :
    (before bytes after : List ℕ)
    → length before + length bytes ≤ length (before ++ (bytes ++ after))
within before bytes after =
    omega (arith, length-append before (bytes ++ after), length-append bytes after)

next_offset :
    (before bytes after : List ℕ) (offset : ℕ)
    → offset ≡ length before
    → length (before ++ (bytes ++ after)) < 2 ^ 64
    → add_u64 offset (length bytes) ≡ length (before ++ bytes)
next_offset before bytes after offset e small = omega (
  arith,
  length-append before bytes,
  length-append before (bytes ++ after),
  length-append bytes after,
)

module _ {Datum : Type 0} where
  place_step :
      (n : ℕ) (be bv : List ℕ) (node : ColumnBlockSkipNode Datum)
      (nodes : List (ColumnBlockSkipNode Datum)) (b : ColumnBlockBuffers)
      (bs : List ColumnBlockBuffers) (e v : List ℕ) (es vs : List (List ℕ)) (eo vo : ℕ)
      → eo ≡ length be
      → vo ≡ length bv
      → b.exists_buffer ≡ some e
      → b.value_buffer ≡ some v
      → Succeeds
          (λ nodes'. Located ((be ++ e) ++ joined es) ((bv ++ v) ++ joined vs) n nodes' bs)
          (place_blocks n (add_u64 eo (length e)) (add_u64 vo (length v)) nodes bs)
      → Succeeds
          (λ nodes'.
            Located (be ++ (e ++ joined es)) (bv ++ (v ++ joined vs)) (suc n) nodes' (b ∷ bs))
          (place_blocks (suc n) eo vo (node ∷ nodes) (b ∷ bs))
  unfolding place_blocks
  place_step n be bv node nodes b bs e v es vs eo vo eeo evo has_e has_v ih =
      let (rest, r, located) =
        value_of (place_blocks n (add_u64 eo (length e)) (add_u64 vo (length v)) nodes bs) ih in
      let located' : Located (be ++ (e ++ joined es)) (bv ++ (v ++ joined vs)) n rest bs =
        rw (append_assoc be e (joined es), append_assoc bv v (joined vs)) at located in
      rw (has_e, has_v, r, eeo, evo)
        (
          ap some (piece be e (joined es)),
          ap some (piece bv v (joined vs)),
          refl,
          within be e (joined es),
          within bv v (joined vs),
          located',
        )

  place_blocks-from :
      (n : ℕ) (before_e before_v : List ℕ) (nodes : List (ColumnBlockSkipNode Datum))
      (bs : List ColumnBlockBuffers) (es vs : List (List ℕ)) (eo vo : ℕ)
      → eo ≡ length before_e
      → vo ≡ length before_v
      → block_chunks (λ b. b.exists_buffer) n bs ≡ ok es
      → block_chunks (λ b. b.value_buffer) n bs ≡ ok vs
      → n ≤ length nodes
      → length (before_e ++ joined es) < 2 ^ 64
      → length (before_v ++ joined vs) < 2 ^ 64
      → Succeeds
          (λ nodes'. Located (before_e ++ joined es) (before_v ++ joined vs) n nodes' bs)
          (place_blocks n eo vo nodes bs)
  unfolding place_blocks block_chunks
  place_blocks-from zero be bv nodes bs es vs eo vo eeo evo p q fits se sv = tt
  place_blocks-from (suc n) be bv nodes [] es vs eo vo eeo evo p q fits se sv = cc
  place_blocks-from (suc n) be bv [] (b ∷ bs) es vs eo vo eeo evo p q fits se sv =
      absurd (omega arith)
  place_blocks-from (suc n) be bv (node ∷ nodes) (b ∷ bs) es vs eo vo eeo evo p q fits se sv =
      let (e, es', has_e, pe, ee) = block_chunks-step (λ b. b.exists_buffer) n b bs es p in
      let (v, vs', has_v, pv, ev) = block_chunks-step (λ b. b.value_buffer) n b bs vs q in
      let se' : length (be ++ (e ++ joined es')) < 2 ^ 64 =
        subst (λ l. length (be ++ joined l) < 2 ^ 64) ee se in
      let sv' : length (bv ++ (v ++ joined vs')) < 2 ^ 64 =
        subst (λ l. length (bv ++ joined l) < 2 ^ 64) ev sv in
      let eo' = next_offset be e (joined es') eo eeo se' in
      let vo' = next_offset bv v (joined vs') vo evo sv' in
      subst
        (λ l.
          Succeeds (λ nodes'. Located (be ++ joined l) (bv ++ joined vs) (suc n) nodes' (b ∷ bs))
            (place_blocks (suc n) eo vo (node ∷ nodes) (b ∷ bs)))
        (sym ee)
        (subst
          (λ l.
            Succeeds
              (λ nodes'. Located (be ++ (e ++ joined es')) (bv ++ joined l) (suc n) nodes' (b ∷ bs))
              (place_blocks (suc n) eo vo (node ∷ nodes) (b ∷ bs)))
          (sym ev)
          (place_step n be bv node nodes b bs e v es' vs' eo vo eeo evo has_e has_v (
            place_blocks-from n (be ++ e) (bv ++ v) nodes bs es' vs' _ _ eo' vo' pe pv (omega arith)
              (rw (append_assoc be e (joined es')) se') (rw (append_assoc bv v (joined vs')) sv'))))

  -- Where the first `n` blocks of a column have both buffers and the column has a node for each, the
  -- loop succeeds, and each node gives the place of its block's presence bits among the joined
  -- presence buffers, the place of its values among the joined value buffers, and the compression
  -- of its values, all within the joined buffers, if these have less than 2 ^ 64 bytes.
  pub place_blocks-Located :
      (n : ℕ) (nodes : List (ColumnBlockSkipNode Datum)) (bs : List ColumnBlockBuffers)
      (es vs : List (List ℕ))
      → block_chunks (λ b. b.exists_buffer) n bs ≡ ok es
      → block_chunks (λ b. b.value_buffer) n bs ≡ ok vs
      → n ≤ length nodes
      → length (joined es) < 2 ^ 64
      → length (joined vs) < 2 ^ 64
      → Succeeds
          (λ nodes'. Located (joined es) (joined vs) n nodes' bs)
          (place_blocks n 0 0 nodes bs)
  place_blocks-Located n nodes bs es vs p q fits se sv =
      place_blocks-from n [] [] nodes bs es vs 0 0 refl refl p q fits se sv
