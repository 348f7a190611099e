-- ===== src/Reader/Loading/Located.antt =====
-- `LoadColumnBuffers` (cstore_reader.c) reads back the buffers of the selected blocks that
-- `FlushStripe` (cstore_writer.c) placed.
use cstore_fdw.Prelude.{
  ◌-◌, leb, ℕ, zero, suc, ◌+◌, ◌^◌, ◌%◌, ◌≤◌, ◌<◌, ◌≡◌, refl, sym, ap, ◌∙◌, Bool, true, false, List,
  [], ◌∷◌, ◌++◌, arith, All, length, take, drop, drop-append_more, length-append, length-drop,
  append_assoc,
}
use cstore_fdw.Result.{ok, ok-injective}
use cstore_fdw.StringInfo.{max_alloc_size}
use cstore_fdw.Disk.{read_from_file}
use cstore_fdw.Types.{ColumnBlockSkipNode}
use cstore_fdw.Writer.{ColumnBlockBuffers}
use cstore_fdw.Writer.Blocks.{add_u64}
use cstore_fdw.Writer.Blocks.Layout.{Located}
use cstore_fdw.Writer.Column.{empty_block_buffers}
use cstore_fdw.Writer.Invariant.Column.{Succeeds, value_of}
use cstore_fdw.Reader.Selection.{select_nodes, count_selected}
use cstore_fdw.Reader.Loading.{load_exists, load_values, load_column_buffers}

drop-within : (n : ℕ) (xs ys : List ℕ) → n ≤ length xs → drop n (xs ++ ys) ≡ drop n xs ++ ys
drop-within zero xs ys h = refl
drop-within (suc n) [] ys h = absurd (omega arith)
drop-within (suc n) (x ∷ xs) ys h = drop-within n xs ys (omega arith)

take-within : (n : ℕ) (xs ys : List ℕ) → n ≤ length xs → take n (xs ++ ys) ≡ take n xs
take-within zero xs ys h = refl
take-within (suc n) [] ys h = absurd (omega arith)
take-within (suc n) (x ∷ xs) ys h = ap (λ l. x ∷ l) (take-within n xs ys (omega arith))

-- Reading inside of a part of a file.
pub read_from_file-within :
    (before bytes after : List ℕ) (o n : ℕ)
    → o + n ≤ length bytes
    → n < 2 ^ 30 - 1
    → length (before ++ (bytes ++ after)) < 2 ^ 63
    → read_from_file (before ++ (bytes ++ after)) (add_u64 (length before) o) n
      ≡ ok (take n (drop o bytes))
unfolding read_from_file
read_from_file-within before bytes after o zero h small file = refl
read_from_file-within before bytes after o (suc k) h small file =
    rw (whole, below, offset, piece) (ground (arith, sizes))
  where
    n : ℕ
    n = suc k

    sizes : length (before ++ (bytes ++ after)) ≡ length before + (length bytes + length after)
    sizes = omega (arith, length-append before (bytes ++ after), length-append bytes after)

    whole : n % 2 ^ 32 ≡ n
    whole = omega arith

    below : leb max_alloc_size n ≡ false
    below = ground (arith, small)

    offset : add_u64 (length before) o ≡ length before + o
    offset = omega (arith, sizes)

    piece : take n (drop (length before + o) (before ++ (bytes ++ after))) ≡ take n (drop o bytes)
    piece =
        ap (take n) (
          drop-append_more before (bytes ++ after) (length before + o) o refl
          ∙ drop-within o bytes after (omega arith))
        ∙ take-within n (drop o bytes) after (omega (arith, length-drop o bytes))

-- The elements at which the mask is set.
abbrev pub chosen {ℓ} : {A : Type ℓ} → List Bool → List A → List A
chosen [] xs = []
chosen (b ∷ mask) [] = []
chosen (true ∷ mask) (x ∷ xs) = x ∷ chosen mask xs
chosen (false ∷ mask) (x ∷ xs) = chosen mask xs

-- What the first loop leaves of the buffers.
abbrev half : ColumnBlockBuffers → ColumnBlockBuffers
half b = record empty_block_buffers { exists_buffer = b.exists_buffer }

abbrev halves : List ColumnBlockBuffers → List ColumnBlockBuffers
halves [] = []
halves (b ∷ bs) = half b ∷ halves bs

module _ {Datum : Type 0} where
  -- The buffers of a block are strings that can be allocated.
  abbrev pub FitsNode : ColumnBlockSkipNode Datum → Type 0
  FitsNode node = (node.exists_length < 2 ^ 30 - 1) × (node.value_length < 2 ^ 30 - 1)

  load_exists-chosen :
      (exists values before after : List ℕ) (mask : List Bool)
      (nodes : List (ColumnBlockSkipNode Datum)) (bs : List ColumnBlockBuffers)
      → Located exists values (length mask) nodes bs
      → All FitsNode nodes
      → length (before ++ (exists ++ after)) < 2 ^ 63
      → Succeeds
          (λ selected.
            load_exists (before ++ (exists ++ after)) (length before) (count_selected mask) selected
            ≡ ok (halves (chosen mask bs)))
          (select_nodes mask nodes)
  unfolding load_exists select_nodes
  load_exists-chosen exists values before after [] nodes bs h fits file = refl
  load_exists-chosen exists values before after (b ∷ mask) [] bs h fits file = absurd h
  load_exists-chosen exists values before after (b ∷ mask) (node ∷ nodes) [] h fits file = absurd h
  load_exists-chosen exists values before after (false ∷ mask) (node ∷ nodes) (b ∷ bs) h fits file =
      load_exists-chosen exists values before after mask nodes bs h.5 fits.1 file
  load_exists-chosen exists values before after (true ∷ mask) (node ∷ nodes) (b ∷ bs) h fits file =
      let (rest, e, ih) =
        value_of (select_nodes mask nodes)
          (load_exists-chosen exists values before after mask nodes bs h.5 fits.1 file) in
      let read =
        read_from_file-within before exists after node.exists_block_offset node.exists_length h.3
          fits.0.0 file in
      rw (e, read, ih, h.0) refl

  load_values-chosen :
      (exists values before after : List ℕ) (mask : List Bool)
      (nodes : List (ColumnBlockSkipNode Datum)) (bs : List ColumnBlockBuffers)
      → Located exists values (length mask) nodes bs
      → All FitsNode nodes
      → length (before ++ (values ++ after)) < 2 ^ 63
      → Succeeds
          (λ selected.
            load_values
              (before ++ (values ++ after))
              (length before)
              selected
              (halves (chosen mask bs))
            ≡ ok (chosen mask bs))
          (select_nodes mask nodes)
  unfolding load_values select_nodes
  load_values-chosen exists values before after [] nodes bs h fits file = refl
  load_values-chosen exists values before after (b ∷ mask) [] bs h fits file = absurd h
  load_values-chosen exists values before after (b ∷ mask) (node ∷ nodes) [] h fits file = absurd h
  load_values-chosen exists values before after (false ∷ mask) (node ∷ nodes) (b ∷ bs) h fits file =
      load_values-chosen exists values before after mask nodes bs h.5 fits.1 file
  load_values-chosen exists values before after (true ∷ mask) (node ∷ nodes) (b ∷ bs) h fits file =
      let (rest, e, ih) =
        value_of (select_nodes mask nodes)
          (load_values-chosen exists values before after mask nodes bs h.5 fits.1 file) in
      let read =
        read_from_file-within before values after node.value_block_offset node.value_length h.4
          fits.0.1 file in
      rw (e, read, ih, h.1, h.2) refl

  -- Where the nodes of a column give the places of the blocks' buffers among the presence and the
  -- value bytes of the column, and these stand one behind the other in a file below 2 ^ 63 bytes,
  -- the nodes that a mask selects load exactly the buffers of the selected blocks, in their order,
  -- if every buffer is shorter than 2 ^ 30 - 1 bytes.
  pub load_column_buffers-chosen :
      (exists values before after : List ℕ) (mask : List Bool)
      (nodes : List (ColumnBlockSkipNode Datum)) (bs : List ColumnBlockBuffers)
      → Located exists values (length mask) nodes bs
      → All FitsNode nodes
      → length (before ++ (exists ++ (values ++ after))) < 2 ^ 63
      → Succeeds
          (λ selected.
            load_column_buffers
              (before ++ (exists ++ (values ++ after)))
              selected
              (count_selected mask)
              (length before)
              (length before + length exists)
            ≡ ok (chosen mask bs))
          (select_nodes mask nodes)
  unfolding load_column_buffers
  load_column_buffers-chosen exists values before after mask nodes bs h fits file =
      let again : before ++ (exists ++ (values ++ after))
          ≡ (before ++ exists) ++ (values ++ after) =
        sym (append_assoc before exists (values ++ after)) in
      let (selected, e, first) =
        value_of (select_nodes mask nodes)
          (load_exists-chosen exists values before (values ++ after) mask nodes bs h fits file) in
      let (selected', e', second) = value_of (select_nodes mask nodes) (
        load_values-chosen exists values (before ++ exists) after mask nodes bs h fits
          (rw (sym again) file)) in
      rw (e, first, again, sym (length-append before exists))
        (ap
            (λ l.
              load_values ((before ++ exists) ++ (values ++ after)) (length (before ++ exists)) l
                (halves (chosen mask bs)))
            (ok-injective (sym e ∙ e'))
          ∙ second)
