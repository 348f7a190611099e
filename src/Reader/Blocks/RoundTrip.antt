-- ===== src/Reader/Blocks/RoundTrip.antt =====
-- A block of a column is read back as it was written: `CStoreWriteRow` and `SerializeBlockData`
-- (cstore_writer.c) against `DeserializeBlockData` (cstore_reader.c).
use cstore_fdw.Prelude.{
  ◌%◌, leb, replicate, length-replicate, ℕ, zero, suc, ◌+◌, ◌^◌, ◌≤◌, ◌<◌, ◌≡◌, refl, sym, ap, ◌∙◌,
  Bool, true, false, Option, none, some, List, [], ◌∷◌, ◌++◌, map, arith, All, length, take, drop,
  set, get_elem?, if◌then◌else◌, get_elem?-eq-some, length-set, set-append, append_assoc,
  append-nil, length-append, length-map, take-append,
}
use cstore_fdw.Result.{Result, ok, ◌>>=◌}
use cstore_fdw.Postgres.{Attribute, TupleMacros, TupleMacroLaws}
use cstore_fdw.Compression.{
  compression_type_invalid, CompressionType, compression_none, compression_pg_lz, Pglz, PglzLaws,
  compress_buffer, decompress_buffer,
}
use cstore_fdw.BoolArray.RoundTrip.{deserialize-serialize_bool_array}
use cstore_fdw.Compression.RoundTrip.{chosen, decompress-compress_buffer}
use cstore_fdw.Datum.{overwrite, datum_bytes, append_datum, serialize_single_datum}
use cstore_fdw.StringInfo.{max_alloc_size}
use cstore_fdw.Datum.RoundTrip.{
  is_some, overlay, IsCell, serialize_cells, deserialize-serialize_cells,
}
use cstore_fdw.Writer.{ColumnBlockBuffers, WriteColumn}
use cstore_fdw.Writer.Column.{
  write_cell, serialize_block, block_buffers_of, enlarge_compression_buffer,
}
use cstore_fdw.Writer.Invariant.Column.{Succeeds, value_of, store_at-ok}
use cstore_fdw.Reader.{BlockData}
use cstore_fdw.Reader.Constraints.{Planner}
use cstore_fdw.Reader.Blocks.{deserialize_buffers, is_short}

-- The cells that the two arrays of a block give.
abbrev pub cells_of : {Datum : Type 0} → List Bool → List Datum → List (Option Datum)
cells_of [] values = []
cells_of (b ∷ exists) [] = []
cells_of (b ∷ exists) (v ∷ values) = (if b then some v else none) ∷ cells_of exists values

cells_of-overlay :
    {Datum : Type 0} (cells : List (Option Datum)) (old : List Datum) (rest : List Bool)
    → length cells ≤ length old
    → take (length cells) (cells_of (map is_some cells ++ rest) (overlay cells old)) ≡ cells
cells_of-overlay [] old rest h = refl
cells_of-overlay (c ∷ cells) [] rest h = absurd (omega arith)
cells_of-overlay (none ∷ cells) (o ∷ old) rest h =
    ap (λ l. none ∷ l) (cells_of-overlay cells old rest (omega arith))
cells_of-overlay (some d ∷ cells) (o ∷ old) rest h =
    ap (λ l. some d ∷ l) (cells_of-overlay cells old rest (omega arith))

-- What a cell changes in the first loop's column.
record Written {Datum : Type 0} (c : WriteColumn Datum) (exists : List Bool) (buffer : List ℕ)
    (c' : WriteColumn Datum) : Type 0 where
  attribute_kept : c'.attribute ≡ c.attribute
  buffers_kept : c'.block_buffers ≡ c.block_buffers
  nodes_sized : length c'.skip_nodes ≡ length c.skip_nodes
  exists_written : c'.exists_array ≡ exists
  values_written : c'.value_buffer ≡ some buffer

length-drop-replicate : (k n : ℕ) → n ≤ k + length {A = ℕ} (drop k (replicate n 0))
length-drop-replicate zero n = omega (arith, length-replicate {A = ℕ} n 0)
length-drop-replicate (suc k) zero = omega arith
length-drop-replicate (suc k) (suc n) = omega (arith, length-drop-replicate k n)

module _ (macros : TupleMacros) (laws : TupleMacroLaws macros) (pglz : Pglz) where
  open macros use {Datum}

  -- The cells of one column of consecutive rows, into a block, from a row on.
  abbrev pub write_column_cells :
      ℕ → ℕ → WriteColumn Datum → List (Option Datum) → Result (WriteColumn Datum)
  write_column_cells block index c [] = ok c
  write_column_cells block index c (v ∷ cells) = do
    c' ← write_cell macros pglz block index c v
    write_column_cells block (index + 1) c' cells

  -- A string that stays below 1 GB has room for the next datum.
  room_for_datum :
      (buffer : List ℕ) (d : Datum) (a : Attribute)
      → length (append_datum macros buffer d a.attbyval a.attlen a.attalign) + 13 < 2 ^ 30
      → leb max_alloc_size (
          length buffer
          + macros.att_align_nominal (macros.att_addlength_datum 0 a.attlen d % 2 ^ 32) a.attalign
            % 2 ^ 32)
        ≡ false
  unfolding append_datum
  room_for_datum buffer d a small =
      let datum_length = macros.att_addlength_datum 0 a.attlen d % 2 ^ 32 in
      let aligned = macros.att_align_nominal datum_length a.attalign % 2 ^ 32 in
      let bytes = datum_bytes macros d a.attbyval a.attlen datum_length in
      let grown =
        length-append buffer (overwrite (replicate aligned 0) bytes)
        ∙ ap (λ n. length buffer + n)
            (length-append bytes (drop (length bytes) (replicate aligned 0))) in
      let rest = length-drop-replicate (length bytes) aligned in ground (arith, grown, rest, small)

  write_cell-Written :
      (block index : ℕ) (c : WriteColumn Datum) (v : Option Datum) (buffer : List ℕ)
      → block < length c.skip_nodes
      → index < length c.exists_array
      → c.value_buffer ≡ some buffer
      → length (serialize_cells macros laws c.attribute buffer (v ∷ [])) + 13 < 2 ^ 30
      → Succeeds
          (Written c
            (set c.exists_array index (is_some v))
            (serialize_cells macros laws c.attribute buffer (v ∷ [])))
          (write_cell macros pglz block index c v)
  unfolding write_cell serialize_single_datum
  write_cell-Written block index c none buffer in_nodes in_exists has small =
      let (node, e) = get_elem?-eq-some c.skip_nodes block in_nodes in
      rw (e, store_at-ok c.exists_array index false in_exists)
        (record {
          attribute_kept = refl;
          buffers_kept = refl;
          nodes_sized = length-set c.skip_nodes block _;
          exists_written = refl;
          values_written = has;
        })
  write_cell-Written block index c (some d) buffer in_nodes in_exists has small =
      let (node, e) = get_elem?-eq-some c.skip_nodes block in_nodes in
      let room = room_for_datum buffer d c.attribute small in
      rw (e, store_at-ok c.exists_array index true in_exists, has, room)
        (record {
          attribute_kept = refl;
          buffers_kept = refl;
          nodes_sized = length-set c.skip_nodes block _;
          exists_written = refl;
          values_written = refl;
        })

  serialize_cells-cons :
      (a : Attribute) (buffer : List ℕ) (v : Option Datum) (cells : List (Option Datum))
      → serialize_cells macros laws a (serialize_cells macros laws a buffer (v ∷ [])) cells
        ≡ serialize_cells macros laws a buffer (v ∷ cells)
  serialize_cells-cons a buffer none cells = refl
  serialize_cells-cons a buffer (some d) cells = refl

  serialize_cells_grow :
      (a : Attribute) (buffer : List ℕ) (cells : List (Option Datum))
      → length buffer ≤ length (serialize_cells macros laws a buffer cells)
  unfolding append_datum
  serialize_cells_grow a buffer [] = omega arith
  serialize_cells_grow a buffer (none ∷ cells) = serialize_cells_grow a buffer cells
  serialize_cells_grow a buffer (some d ∷ cells) =
      let next = append_datum macros buffer d a.attbyval a.attlen a.attalign in
      omega (arith, serialize_cells_grow a next cells, length-append buffer _)

  write_column_cells-Written :
      (block index : ℕ) (c : WriteColumn Datum) (cells : List (Option Datum)) (buffer : List ℕ)
      (done rest : List Bool)
      → block < length c.skip_nodes
      → c.exists_array ≡ done ++ rest
      → index ≡ length done
      → length cells ≤ length rest
      → c.value_buffer ≡ some buffer
      → length (serialize_cells macros laws c.attribute buffer cells) + 13 < 2 ^ 30
      → Succeeds
          (Written c
            ((done ++ map is_some cells) ++ drop (length cells) rest)
            (serialize_cells macros laws c.attribute buffer cells))
          (write_column_cells block index c cells)
  write_column_cells-Written block index c [] buffer done rest in_nodes e at fits has small =
      record {
        attribute_kept = refl;
        buffers_kept = refl;
        nodes_sized = refl;
        exists_written = e ∙ ap (λ l. l ++ rest) (sym (append-nil done));
        values_written = has;
      }
  write_column_cells-Written block index c (v ∷ cells) buffer done [] in_nodes e at fits has small =
      absurd (omega arith)
  write_column_cells-Written block index c (v ∷ cells) buffer done (r ∷ rest) in_nodes e at fits has
        small =
      let sized : length c.exists_array ≡ length done + suc (length rest) =
        ap length e ∙ length-append done (r ∷ rest) in
      let first = serialize_cells macros laws c.attribute buffer (v ∷ []) in
      let whole = ap length (serialize_cells-cons c.attribute buffer v cells) in
      let (c1, e1, w1) = value_of (write_cell macros pglz block index c v) (
        write_cell-Written block index c v buffer in_nodes (omega arith) has
          (omega (arith, whole, serialize_cells_grow c.attribute first cells))) in
      let stored : c1.exists_array ≡ (done ++ (is_some v ∷ [])) ++ rest =
        w1.exists_written
        ∙ ap (λ l. set l index (is_some v)) e
        ∙ set-append done r rest index (is_some v) at
        ∙ sym (append_assoc done (is_some v ∷ []) rest) in
      let (c2, e2, w2) = value_of (write_column_cells block (index + 1) c1 cells) (
        write_column_cells-Written block (index + 1) c1 cells _ (done ++ (is_some v ∷ [])) rest
          (omega (arith, w1.nodes_sized)) stored
          (omega (arith, length-append done (is_some v ∷ []))) (omega arith) w1.values_written
          (rw (w1.attribute_kept) (omega (arith, whole, small)))) in
      rw (e1, e2)
        (record {
          attribute_kept = w2.attribute_kept ∙ w1.attribute_kept;
          buffers_kept = w2.buffers_kept ∙ w1.buffers_kept;
          nodes_sized = w2.nodes_sized ∙ w1.nodes_sized;
          exists_written =
              w2.exists_written
              ∙ ap (λ l. l ++ drop (length cells) rest)
                  (append_assoc done (is_some v ∷ []) (map is_some cells));
          values_written =
              w2.values_written
              ∙ ap
                  (λ a. some (
                    serialize_cells macros laws a
                      (serialize_cells macros laws c.attribute buffer (v ∷ [])) cells))
                  w1.attribute_kept
              ∙ ap some (serialize_cells-cons c.attribute buffer v cells);
        })

  module _ (pglz_laws : PglzLaws pglz) (planner : Planner Datum) where
    -- The bytes and the type that are stored for a value buffer give it back.
    decompress-stored :
        (values : List ℕ) (requested : CompressionType)
        → length values + 12 < 2 ^ 30
        → let r = compress_buffer pglz values [] requested in
          decompress_buffer pglz
            (if r.0 then r.1 else values)
            (if r.0 then compression_pg_lz else compression_none)
          ≡ ok (some values)
    decompress-stored values requested small =
        go (compress_buffer pglz values [] requested)
          (decompress-compress_buffer pglz pglz_laws values [] requested small)
      where
        go :
            (r : Bool × List ℕ)
            → (let (bytes, stored_type) = chosen values r in
                decompress_buffer pglz bytes stored_type ≡ ok (some values))
            → decompress_buffer pglz
                (if r.0 then r.1 else values)
                (if r.0 then compression_pg_lz else compression_none)
              ≡ ok (some values)
        go (true, output) h = h
        go (false, output) h = h

    -- The buffers of a block, deserialized.
    deserialize-block_buffers :
        (a : Attribute) (cells : List (Option Datum)) (rest : List Bool)
        (requested : CompressionType) (block : ℕ) (buffers : List ColumnBlockBuffers)
        (d : BlockData Datum) (freed : List ℕ)
        → let exists = map is_some cells ++ rest in
          let values = serialize_cells macros laws a [] cells in
          get_elem? buffers block
            ≡ some (block_buffers_of macros pglz requested exists values (length cells))
          → All (IsCell macros laws a) cells
          → length values + 12 < 2 ^ 30
          → length cells + 7 < 2 ^ 32
          → length cells ≤ length d.exists_array
          → length cells ≤ length d.value_array
          → d.value_buffer ≡ some freed
          → Succeeds
              (λ d'. take (length cells) (cells_of d'.exists_array d'.value_array) ≡ cells)
              (deserialize_buffers macros pglz planner block (length cells) a buffers d)
    unfolding deserialize_buffers block_buffers_of
    deserialize-block_buffers a cells rest requested block buffers d freed at v small rows in_exists
          in_values has =
        let n = length cells in
        let exists = map is_some cells ++ rest in
        let values = serialize_cells macros laws a [] cells in
        let marked : length (map is_some cells) ≡ n = length-map is_some cells in
        let cut : take n exists ≡ map is_some cells =
          take-append (map is_some cells) rest n (sym marked) in
        let bits =
          deserialize-serialize_bool_array exists d.exists_array n
            (omega (arith, marked, length-append (map is_some cells) rest)) in_exists rows in
        let read = take n exists ++ drop n d.exists_array in
        let first : take n read ≡ map is_some cells =
          take-append (take n exists) (drop n d.exists_array) n (sym (ap length cut ∙ marked))
          ∙ cut in
        let datums =
          deserialize-serialize_cells macros laws a cells read d.value_array v first (omega arith)
            in_values in
        let fits : is_short d n ≡ false = ground arith in
        rw (at, has, decompress-stored values requested small, bits, fits, datums, cut)
          (cells_of-overlay cells d.value_array (drop n d.exists_array) in_values)

    compression_room :
        (requested : CompressionType) (values : List ℕ)
        → length values + 13 < 2 ^ 30
        → enlarge_compression_buffer macros pglz requested values ≡ ok tt
    compression_room compression_none values small = refl
    compression_room compression_type_invalid values small = refl
    compression_room compression_pg_lz values small =
        let fits : leb max_alloc_size (0 + (length values + 12)) ≡ false = ground arith in
        rw fits refl

    get_elem?-set :
        {A : Type 0} (xs : List A) (i : ℕ) (v : A)
        → i < length xs
        → get_elem? (set xs i v) i ≡ some v
    get_elem?-set [] i v h = absurd (omega arith)
    get_elem?-set (x ∷ xs) zero v h = refl
    get_elem?-set (x ∷ xs) (suc i) v h = get_elem?-set xs i v (omega arith)

    -- The cells of a block go through the presence bits, the values and the compression, and back.
    abbrev pub write_and_read :
        CompressionType
        → ℕ
        → WriteColumn Datum
        → List (Option Datum)
        → BlockData Datum
        → Result (BlockData Datum)
    write_and_read requested block c cells d = do
      written ← write_column_cells block 0 c cells
      serialized ← serialize_block macros pglz requested block (length cells) written
      deserialize_buffers macros pglz planner block (length cells) c.attribute
          serialized.block_buffers d

    -- The cells that are written to an empty block of a column, serialized with any requested
    -- compression and deserialized, are the cells that the reader's arrays then hold, nulls
    -- included, if the writer's and the reader's arrays have an entry for each of the rows, the
    -- column has a node and buffers for the block, and the values take less than 1 GB less 13 bytes.
    pub write_and_read-eq :
        (requested : CompressionType) (block : ℕ) (c : WriteColumn Datum)
        (cells : List (Option Datum)) (d : BlockData Datum) (freed : List ℕ)
        → c.value_buffer ≡ some []
        → block < length c.skip_nodes
        → block < length c.block_buffers
        → length cells ≤ length c.exists_array
        → All (IsCell macros laws c.attribute) cells
        → length (serialize_cells macros laws c.attribute [] cells) + 13 < 2 ^ 30
        → length cells + 7 < 2 ^ 32
        → length cells ≤ length d.exists_array
        → length cells ≤ length d.value_array
        → d.value_buffer ≡ some freed
        → Succeeds
            (λ d'. take (length cells) (cells_of d'.exists_array d'.value_array) ≡ cells)
            (write_and_read requested block c cells d)
    unfolding serialize_block
    write_and_read-eq requested block c cells d freed empty in_nodes in_buffers fits v small rows
          in_exists in_values has =
        let values = serialize_cells macros laws c.attribute [] cells in
        let (c1, e1, w) = value_of (write_column_cells block 0 c cells) (
          write_column_cells-Written block 0 c cells [] [] c.exists_array in_nodes refl refl fits
            empty small) in
        let room = compression_room requested values (omega arith) in
        let buffers =
          block_buffers_of macros pglz requested c1.exists_array
            (serialize_cells macros laws c.attribute [] cells) (length cells) in
        let sized : block < length c1.block_buffers = rw (w.buffers_kept) in_buffers in
        let at : get_elem? (set c1.block_buffers block buffers) block
            ≡ some (
                block_buffers_of macros pglz requested
                  (map is_some cells ++ drop (length cells) c.exists_array)
                  (serialize_cells macros laws c.attribute [] cells) (length cells)) =
          get_elem?-set c1.block_buffers block buffers sized
          ∙ ap
              (λ l. some (
                block_buffers_of macros pglz requested l
                  (serialize_cells macros laws c.attribute [] cells) (length cells)))
              w.exists_written in
        rw (e1, w.values_written, room, store_at-ok c1.block_buffers block buffers sized)
          (deserialize-block_buffers c.attribute cells (drop (length cells) c.exists_array)
            requested block (set c1.block_buffers block buffers) d freed at v (omega arith) rows
            in_exists in_values has)
