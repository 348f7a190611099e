-- ===== src/Writer/Invariant/Column.antt =====
-- What the loops of a load (cstore_writer.c) do to the arrays of one column.
use cstore_fdw.Prelude.{
  ◌⊎◌, ℕ, zero, suc, ◌<◌, ◌≡◌, refl, ap, ◌∙◌, true, false, Option, none, some, List, [], ◌∷◌, arith,
  length, set, All, lt→ltb, leb, ◌+◌, ◌%◌, ◌^◌, inl, inr, Bool-cases, length-set, get_elem?-eq-some,
}
use cstore_fdw.Result.{Result, ok, err, string_too_large}
use cstore_fdw.Postgres.{TupleMacros}
use cstore_fdw.Compression.{
  CompressionType, compression_none, compression_pg_lz, compression_type_invalid, Pglz,
}
use cstore_fdw.StringInfo.{max_alloc_size}
use cstore_fdw.Datum.{serialize_single_datum}
use cstore_fdw.Writer.{ColumnBlockBuffers, WriteColumn}
use cstore_fdw.Writer.Column.{
  store_at, for_columns, write_cell, write_cells, block_buffers_of, serialize_block,
  enlarge_compression_buffer,
}
use cstore_fdw.Writer.Invariant.{is_set, IsFull, Filled, IsColumn}

pub Option-set : {A : Type 0} (o : Option A) → is_set o ≡ true → (a : A) × (o ≡ some a)
Option-set none h = cc
Option-set (some a) h = (a, refl)

pub store_at-ok :
    {A : Type 0} (xs : List A) (i : ℕ) (v : A) → i < length xs → store_at xs i v ≡ ok (set xs i v)
store_at-ok xs i v h = rw (lt→ltb i (length xs) h) refl

-- Serializing the next block makes it full.
Filled-set :
    (k : ℕ) (bs : List ColumnBlockBuffers) (b : ColumnBlockBuffers)
    → k < length bs
    → IsFull b
    → Filled k bs
    → Filled (suc k) (set bs k b)
Filled-set k [] b h full f = absurd (omega arith)
Filled-set zero (x ∷ bs) b h full f = (full, tt)
Filled-set (suc k) (x ∷ bs) b h full f = (f.0, Filled-set k bs b (omega arith) full f.1)

-- The result is a value with this property.
abbrev pub Succeeds : {A : Type 0} → (A → Type 0) → Result A → Type 0
Succeeds P (ok a) = P a
Succeeds P (err e) = ⊥

pub value_of :
    {A : Type 0} {P : A → Type 0} (r : Result A) → Succeeds P r → (a : A) × (r ≡ ok a) × P a
value_of (ok a) h = (a, refl, h)
value_of (err e) h = absurd h

-- A loop over the columns succeeds where its body does.
pub for_columns-All :
    {A B : Type 0} (P : A → Type 0) (Q : B → Type 0) (body : A → Result B) (cs : List A)
    → ((c : A) → P c → Succeeds Q (body c))
    → All P cs
    → Succeeds (λ cs'. (length cs' ≡ length cs) × All Q cs') (for_columns body cs)
for_columns-All P Q body [] h p = (refl, tt)
for_columns-All P Q body (c ∷ cs) h p =
    let (c', e, q) = value_of (body c) (h c p.0) in
    let (cs', es, w) = value_of (for_columns body cs) (for_columns-All P Q body cs h p.1) in
    rw (e, es) (ap suc w.0, (q, w.1))

-- The result is a value with this property, or a string would reach 1 GB.
abbrev pub Grows : {A : Type 0} → (A → Type 0) → Result A → Type 0
Grows P (ok a) = P a
Grows P (err e) = e ≡ string_too_large

pub Grows-cases :
    {A : Type 0} {P : A → Type 0} (r : Result A)
    → Grows P r
    → ((a : A) × (r ≡ ok a) × P a) ⊎ (r ≡ err string_too_large)
Grows-cases (ok a) h = inl (a, refl, h)
Grows-cases (err e) h = inr (ap err h)

pub Succeeds-Grows : {A : Type 0} (P : A → Type 0) (r : Result A) → Succeeds P r → Grows P r
Succeeds-Grows P (ok a) h = h
Succeeds-Grows P (err e) h = absurd h

pub for_columns-Grows :
    {A B : Type 0} (P : A → Type 0) (Q : B → Type 0) (body : A → Result B) (cs : List A)
    → ((c : A) → P c → Grows Q (body c))
    → All P cs
    → Grows (λ cs'. (length cs' ≡ length cs) × All Q cs') (for_columns body cs)
for_columns-Grows P Q body [] h p = (refl, tt)
for_columns-Grows P Q body (c ∷ cs) h p = elim (Grows-cases (body c) (h c p.0)) [
  | inl (c', e, q) ↦
      elim (Grows-cases (for_columns body cs) (for_columns-Grows P Q body cs h p.1)) [
        | inl (cs', es, w) ↦ rw (e, es) (ap suc w.0, (q, w.1))
        | inr es ↦ rw (e, es) refl
      ]
  | inr e ↦ rw e refl
]

module _ (macros : TupleMacros) (pglz : Pglz) where
  open macros use {Datum}

  write_cell-IsColumn :
      (rows blocks k block index : ℕ) (c : WriteColumn Datum) (v : Option Datum)
      → IsColumn rows blocks k c
      → block < blocks
      → index < rows
      → Grows (IsColumn rows blocks k) (write_cell macros pglz block index c v)
  unfolding write_cell serialize_single_datum
  write_cell-IsColumn rows blocks k block index c none h in_blocks in_rows =
      let (node, e) = get_elem?-eq-some c.skip_nodes block (omega (arith, h.nodes_sized)) in
      let stored = store_at-ok c.exists_array index false (omega (arith, h.exists_sized)) in
      rw (e, stored)
        (record {
          exists_sized = length-set c.exists_array index false ∙ h.exists_sized;
          has_buffer = h.has_buffer;
          nodes_sized = length-set c.skip_nodes block _ ∙ h.nodes_sized;
          buffers_sized = h.buffers_sized;
          filled = h.filled;
        })
  write_cell-IsColumn rows blocks k block index c (some v) h in_blocks in_rows =
      let (node, e) = get_elem?-eq-some c.skip_nodes block (omega (arith, h.nodes_sized)) in
      let stored = store_at-ok c.exists_array index true (omega (arith, h.exists_sized)) in
      let (buffer, has) = Option-set c.value_buffer h.has_buffer in
      let a = c.attribute in
      let needed =
        macros.att_align_nominal (macros.att_addlength_datum 0 a.attlen v % 2 ^ 32) a.attalign
        % 2 ^ 32 in
      elim (Bool-cases (leb max_alloc_size (length buffer + needed))) [
        | inl large ↦ rw (e, stored, has, large) refl
        | inr fits ↦
            rw (e, stored, has, fits)
              (record {
                exists_sized = length-set c.exists_array index true ∙ h.exists_sized;
                has_buffer = refl;
                nodes_sized = length-set c.skip_nodes block _ ∙ h.nodes_sized;
                buffers_sized = h.buffers_sized;
                filled = h.filled;
              })
      ]

  -- A row of as many cells as there are columns is taken in whole.
  pub write_cells-IsColumn :
      (rows blocks k block index : ℕ) (cs : List (WriteColumn Datum)) (row : List (Option Datum))
      → All (IsColumn rows blocks k) cs
      → length row ≡ length cs
      → block < blocks
      → index < rows
      → Grows
          (λ cs'. (length cs' ≡ length cs) × All (IsColumn rows blocks k) cs')
          (write_cells macros pglz block index cs row)
  unfolding write_cells
  write_cells-IsColumn rows blocks k block index [] row h e in_blocks in_rows = (refl, tt)
  write_cells-IsColumn rows blocks k block index (c ∷ cs) [] h e in_blocks in_rows =
      absurd (omega arith)
  write_cells-IsColumn rows blocks k block index (c ∷ cs) (v ∷ row) h e in_blocks in_rows =
      elim (Grows-cases (write_cell macros pglz block index c v)
        (write_cell-IsColumn rows blocks k block index c v h.0 in_blocks in_rows)) [
          | inl (c', e', q) ↦
              elim (Grows-cases (write_cells macros pglz block index cs row) (
                write_cells-IsColumn rows blocks k block index cs row h.1 (omega arith) in_blocks
                  in_rows)) [
                    | inl (cs', es, w) ↦ rw (e', es) (ap suc w.0, (q, w.1))
                    | inr es ↦ rw (e', es) refl
                  ]
          | inr e' ↦ rw e' refl
        ]

  room_for_compression :
      (requested : CompressionType) (values : List ℕ)
      → (enlarge_compression_buffer macros pglz requested values ≡ ok tt)
        ⊎ (enlarge_compression_buffer macros pglz requested values ≡ err string_too_large)
  room_for_compression compression_pg_lz values =
      elim (Bool-cases (leb max_alloc_size (0 + (length values + 12)))) [
        | inl e ↦ inr (rw e refl)
        | inr e ↦ inl (rw e refl)
      ]
  room_for_compression compression_none values = inl refl
  room_for_compression compression_type_invalid values = inl refl

  -- Serializing the block behind the full ones makes it full.
  pub serialize_block-IsColumn :
      (rows blocks k : ℕ) (requested : CompressionType) (row_count : ℕ) (c : WriteColumn Datum)
      → IsColumn rows blocks k c
      → k < blocks
      → Grows (IsColumn rows blocks (suc k)) (serialize_block macros pglz requested k row_count c)
  unfolding serialize_block block_buffers_of
  serialize_block-IsColumn rows blocks k requested row_count c h in_blocks =
      let (values, has) = Option-set c.value_buffer h.has_buffer in
      let buffers = block_buffers_of macros pglz requested c.exists_array values row_count in
      let stored = store_at-ok c.block_buffers k buffers (omega (arith, h.buffers_sized)) in
      elim (room_for_compression requested values) [
        | inl fits ↦
            rw (has, stored, fits)
              (record {
                exists_sized = h.exists_sized;
                has_buffer = refl;
                nodes_sized = h.nodes_sized;
                buffers_sized = length-set c.block_buffers k buffers ∙ h.buffers_sized;
                filled =
                    Filled-set k c.block_buffers buffers (omega (arith, h.buffers_sized))
                      (refl, refl) h.filled;
              })
        | inr large ↦ rw (has, large) refl
      ]
