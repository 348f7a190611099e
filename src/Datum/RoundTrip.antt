-- ===== src/Datum/RoundTrip.antt =====
-- A column's values are read back as they were written.
use cstore_fdw.Prelude.{
  ℕ, ◌+◌, ◌≤◌, ◌<◌, ◌^◌, ◌%◌, ◌≡◌, refl, sym, ap, ◌∙◌, Bool, true, false, List, [], ◌∷◌, ◌++◌,
  append-nil, append_assoc, map, Option, none, some, arith, le→ltb, length, take, drop, replicate,
  All, length-append, length-drop, length-replicate, set-append, drop-append,
}
use cstore_fdw.Result.{ok}
use cstore_fdw.Postgres.{Attribute, TupleMacros, TupleMacroLaws, image}
use cstore_fdw.Datum.{
  overwrite, to_nat, datum_bytes, append_datum, read_datums, deserialize_datum_array,
  datum_to_protobuf_binary, protobuf_binary_to_datum,
}

-- A cell of a row: `none` is a null.
abbrev pub is_some {ℓ} : {A : Type ℓ} → Option A → Bool
is_some none = false
is_some (some a) = true

-- `cells` put over an array: a null leaves the entry as it is.
abbrev pub overlay {ℓ} : {A : Type ℓ} → List (Option A) → List A → List A
overlay [] old = old
overlay (c ∷ cells) [] = []
overlay (none ∷ cells) (o ∷ old) = o ∷ overlay cells old
overlay (some a ∷ cells) (o ∷ old) = a ∷ overlay cells old

module _ (macros : TupleMacros) (laws : TupleMacroLaws macros) where
  open macros use {Datum, att_addlength_datum, att_align_nominal, pointer_get_datum, fetch_att}
  open laws use {IsValue}

  abbrev pub IsCell : Attribute → Option Datum → Type 0
  IsCell a none = Unit
  IsCell a (some d) = IsValue a d

  -- The code copies the bytes that make up the value.
  datum_bytes-eq-image :
      (a : Attribute) (d : Datum) (n : ℕ)
      → IsValue a d
      → n ≡ att_addlength_datum 0 a.attlen d
      → datum_bytes macros d a.attbyval a.attlen n ≡ image macros a d
  unfolding datum_bytes
  datum_bytes-eq-image a d n v e =
      ground (arith, laws.addlength_fixed a d (to_nat a.attlen) v, laws.byval_positive a d v)

  -- What a value takes in a buffer: its bytes, and zeros up to the alignment.
  abbrev pub stored : Attribute → Datum → List ℕ
  stored a d =
      overwrite (replicate (att_align_nominal (att_addlength_datum 0 a.attlen d) a.attalign) 0)
        (image macros a d)

  pub length-stored :
      (a : Attribute) (d : Datum)
      → IsValue a d
      → length (stored a d) ≡ att_align_nominal (att_addlength_datum 0 a.attlen d) a.attalign
  length-stored a d v =
      let n = att_addlength_datum 0 a.attlen d in
      let m = att_align_nominal n a.attalign in
      omega (
        arith,
        length-append (image macros a d) (drop (length (image macros a d)) (replicate m 0)),
        length-drop (length (image macros a d)) (replicate {A = ℕ} m 0),
        length-replicate {A = ℕ} m 0,
        laws.length_image a d v,
        laws.align_bounds n a.attalign,
      )

  pub append_datum-eq :
      (buffer : List ℕ) (a : Attribute) (d : Datum)
      → IsValue a d
      → append_datum macros buffer d a.attbyval a.attlen a.attalign ≡ buffer ++ stored a d
  unfolding append_datum
  append_datum-eq buffer a d v =
      rw (whole, aligned, datum_bytes-eq-image a d (att_addlength_datum 0 a.attlen d) v refl)
    where
      whole : att_addlength_datum 0 a.attlen d % 2 ^ 32 ≡ att_addlength_datum 0 a.attlen d
      whole = omega (arith, laws.addlength_small a d v)

      aligned :
          att_align_nominal (att_addlength_datum 0 a.attlen d) a.attalign % 2 ^ 32
          ≡ att_align_nominal (att_addlength_datum 0 a.attlen d) a.attalign
      aligned = omega (
        arith,
        laws.addlength_small a d v,
        laws.align_bounds (att_addlength_datum 0 a.attlen d) a.attalign,
      )

  -- The value buffer of a column block: what its values that are not null take, in order.
  abbrev pub cells_bytes : Attribute → List (Option Datum) → List ℕ
  cells_bytes a [] = []
  cells_bytes a (none ∷ cells) = cells_bytes a cells
  cells_bytes a (some d ∷ cells) = stored a d ++ cells_bytes a cells

  pub read_datums-eq :
      (a : Attribute) (cells : List (Option Datum)) (before : List Datum) (old : List Datum)
      (index offset : ℕ) (start buffer : List ℕ)
      → All (IsCell a) cells
      → index ≡ length before
      → offset ≡ length start
      → att_align_nominal offset a.attalign ≡ offset
      → buffer ≡ start ++ cells_bytes a cells
      → length buffer < 2 ^ 32
      → length cells ≤ length old
      → read_datums macros
          (map is_some cells)
          index
          offset
          buffer
          a.attbyval
          a.attlen
          a.attalign
          (before ++ old)
        ≡ ok (before ++ overlay cells old)
  unfolding read_datums
  read_datums-eq a [] before old index offset start buffer v ei eo al eb small fits = refl
  read_datums-eq a (c ∷ cells) before [] index offset start buffer v ei eo al eb small fits =
      absurd (omega arith)
  read_datums-eq a (none ∷ cells) before (o ∷ old) index offset start buffer v ei eo al eb small
        fits =
      ap
        (read_datums macros (map is_some cells) (index + 1) offset buffer a.attbyval a.attlen
          a.attalign)
        (sym (append_assoc before (o ∷ []) old))
      ∙ read_datums-eq a cells (before ++ o ∷ []) old (index + 1) offset start buffer v.1
          (omega (arith, length-append before (o ∷ []))) eo al eb small (omega arith)
      ∙ ap ok (append_assoc before (o ∷ []) (overlay cells old))
  read_datums-eq a (some d ∷ cells) before (o ∷ old) index offset start buffer v ei eo al eb small
        fits =
      rw
        (
          memory,
          laws.fetch_image a d rest v.0,
          passed,
          moved,
          le→ltb (length buffer) (offset + m) room,
          set-append before o old index d ei,
        )
        (ap
            (read_datums macros (map is_some cells) (index + 1) (offset + m) buffer a.attbyval
              a.attlen a.attalign)
            (sym (append_assoc before (d ∷ []) old))
          ∙ read_datums-eq a cells (before ++ d ∷ []) old (index + 1) (offset + m)
              (start ++ stored a d) buffer v.1 (omega (arith, length-append before (d ∷ [])))
              (omega (arith, length-append start (stored a d), length-stored a d v.0)) still split
              small (omega arith)
          ∙ ap ok (append_assoc before (d ∷ []) (overlay cells old)))
    where
      n : ℕ
      n = att_addlength_datum 0 a.attlen d

      m : ℕ
      m = att_align_nominal n a.attalign

      rest : List ℕ
      rest = drop (length (image macros a d)) (replicate m 0) ++ cells_bytes a cells

      memory : drop offset buffer ≡ image macros a d ++ rest
      memory = rw eb (
          drop-append start (cells_bytes a (some d ∷ cells)) offset eo
          ∙ append_assoc (image macros a d) (drop (length (image macros a d)) (replicate m 0))
              (cells_bytes a cells))

      split : buffer ≡ (start ++ stored a d) ++ cells_bytes a cells
      split = eb ∙ sym (append_assoc start (stored a d) (cells_bytes a cells))

      room : offset + m ≤ length buffer
      room = omega (
        arith,
        ap length split,
        length-append (start ++ stored a d) (cells_bytes a cells),
        length-append start (stored a d),
        length-stored a d v.0,
      )

      passed :
          att_addlength_datum offset a.attlen (pointer_get_datum (image macros a d ++ rest))
            % 2 ^ 32
          ≡ offset + n
      passed =
          omega
            (arith, laws.addlength_image a d offset rest v.0, room, laws.align_bounds n a.attalign)

      moved : att_align_nominal (offset + n) a.attalign % 2 ^ 32 ≡ offset + m
      moved = omega (arith, laws.align_add offset n a.attalign al, room)

      still : att_align_nominal (offset + m) a.attalign ≡ offset + m
      still = omega (arith, laws.align_add offset m a.attalign al, laws.align_idem n a.attalign)

  -- The rows of a column block, serialized one after the other as rows arrive.
  abbrev pub serialize_cells : Attribute → List ℕ → List (Option Datum) → List ℕ
  serialize_cells a buffer [] = buffer
  serialize_cells a buffer (none ∷ cells) = serialize_cells a buffer cells
  serialize_cells a buffer (some d ∷ cells) =
      serialize_cells a (append_datum macros buffer d a.attbyval a.attlen a.attalign) cells

  pub serialize_cells-eq :
      (a : Attribute) (cells : List (Option Datum)) (buffer : List ℕ)
      → All (IsCell a) cells
      → serialize_cells a buffer cells ≡ buffer ++ cells_bytes a cells
  serialize_cells-eq a [] buffer v = sym (append-nil buffer)
  serialize_cells-eq a (none ∷ cells) buffer v = serialize_cells-eq a cells buffer v.1
  serialize_cells-eq a (some d ∷ cells) buffer v = rw (append_datum-eq buffer a d v.0) (
      serialize_cells-eq a cells (buffer ++ stored a d) v.1
      ∙ append_assoc buffer (stored a d) (cells_bytes a cells))

  -- Reading the buffer to which the values of a column's cells were serialized, with the presence
  -- bits of those cells, gives every value back at its row and leaves the entries of the nulls as
  -- they were, if the buffer is below 4 GB and the array has an entry for each row.
  pub deserialize-serialize_cells :
      (a : Attribute) (cells : List (Option Datum)) (exists : List Bool) (old : List Datum)
      → All (IsCell a) cells
      → take (length cells) exists ≡ map is_some cells
      → length (serialize_cells a [] cells) < 2 ^ 32
      → length cells ≤ length old
      → deserialize_datum_array macros
          (serialize_cells a [] cells)
          exists
          (length cells)
          a.attbyval
          a.attlen
          a.attalign
          old
        ≡ ok (overlay cells old)
  unfolding deserialize_datum_array
  deserialize-serialize_cells a cells exists old v e small fits = rw e (
      read_datums-eq a cells [] old 0 0 [] (serialize_cells a [] cells) v refl refl
        (laws.align_zero a.attalign) (serialize_cells-eq a cells [] v) small fits)

  -- The minimum or maximum of a skip node is read back from the bytes stored for it.
  pub binary_to_datum-to_binary :
      (a : Attribute) (d : Datum)
      → IsValue a d
      → protobuf_binary_to_datum macros
          (datum_to_protobuf_binary macros d a.attbyval a.attlen)
          a.attbyval
          a.attlen
        ≡ d
  unfolding datum_to_protobuf_binary protobuf_binary_to_datum
  binary_to_datum-to_binary a d v =
      rw (datum_bytes-eq-image a d (att_addlength_datum 0 a.attlen d) v refl)
        (laws.fetch_image a d _ v)
