-- ===== src/FooterFile/RoundTrip.antt =====
-- A footer file that was written is read back, and a damaged one is refused.
use cstore_fdw.Prelude.{
  le→ltb, ℕ, ◌+◌, ◌-◌, ◌%◌, ◌^◌, ◌≤◌, ◌<◌, ◌≡◌, refl, ap, sym, ◌∙◌, some, List, [], ◌∷◌, ◌++◌,
  append_assoc, arith, length, length-append,
}
use cstore_fdw.Result.{Result, ok, err, invalid_cstore_file, invalid_postscript_size}
use cstore_fdw.Disk.{Disk, read_from_file}
use cstore_fdw.Disk.Writes.{read_from_file-append}
use cstore_fdw.Protobuf.{Protobuf, ProtobufLaws}
use cstore_fdw.Types.{TableFooter}
use cstore_fdw.Metadata.Footers.{
  IsFooter, deserialize-serialize_post_script, deserialize-serialize_table_footer,
}
use cstore_fdw.FooterFile.Write.{footer_bytes, postscript_bytes, write_footer}
use cstore_fdw.FooterFile.Write.Effects.{OnTemp-write_footer, write_footer-Holds}
use cstore_fdw.FooterFile.Read.{read_footer}

module _ (protobuf : Protobuf) (laws : ProtobufLaws protobuf) where
  -- The content of a footer file.
  abbrev pub file_bytes : TableFooter → List ℕ
  file_bytes f =
      footer_bytes protobuf f
      ++ (postscript_bytes protobuf f ++ (length (postscript_bytes protobuf f) ∷ []))

  -- The assertion of `CStoreWriteFooter`, and a footer that a string can hold.
  pub record IsSmall (f : TableFooter) : Type 0 where
    pub postscript_small : length (postscript_bytes protobuf f) < 256
    pub footer_small : length (footer_bytes protobuf f) < 2 ^ 30 - 1

  pub read_footer-file_bytes :
      (f : TableFooter) → IsFooter f → IsSmall f → read_footer protobuf (some (file_bytes f)) ≡ ok f
  unfolding read_footer
  read_footer-file_bytes f h small =
      rw
        (
          last_byte,
          post,
          le→ltb (length (file_bytes f)) 1 (omega (arith, size)),
          le→ltb (length (file_bytes f)) (length b + 1) (omega (arith, size)),
          deserialize-serialize_post_script protobuf laws (length a) (omega (arith, small)),
          le→ltb (length (file_bytes f)) ((length a + length b + 1) % 2 ^ 64) (omega (arith, size)),
          front,
        )
        (deserialize-serialize_table_footer protobuf laws f h)
    where
      a : List ℕ
      a = footer_bytes protobuf f

      b : List ℕ
      b = postscript_bytes protobuf f

      size : length (file_bytes f) ≡ length a + length b + 1
      size = omega (arith, length-append a (b ++ length b ∷ []), length-append b (length b ∷ []))

      last_byte : read_from_file (file_bytes f) (length (file_bytes f) - 1) 1 ≡ ok (length b ∷ [])
      last_byte =
          ap (λ l. read_from_file l (length (file_bytes f) - 1) 1)
            (sym (append_assoc a b (length b ∷ [])))
          ∙ read_from_file-append (a ++ b) (length b ∷ []) [] (length (file_bytes f) - 1) 1
              (omega (arith, size, length-append a b)) (omega arith) (omega (arith, size, small))
              (omega arith)

      post :
          read_from_file (file_bytes f) (length (file_bytes f) - (1 + length b)) (length b) ≡ ok b
      post =
          read_from_file-append a b (length b ∷ []) (length (file_bytes f) - (1 + length b))
            (length b) (omega (arith, size)) refl (omega (arith, size, small))
            (omega (arith, small))

      front :
          read_from_file
            (file_bytes f)
            ((length (file_bytes f) - (1 + length b) + 2 ^ 64 - length a) % 2 ^ 64)
            (length a)
          ≡ ok a
      front =
          read_from_file-append [] a (b ++ length b ∷ [])
            ((length (file_bytes f) - (1 + length b) + 2 ^ 64 - length a) % 2 ^ 64) (length a)
            (omega (arith, size)) refl (omega (arith, size)) (omega (arith, small))

  -- With credit for its five calls, writing a footer succeeds, and leaves in the temporary file a
  -- content from which that footer is read, and the data file and the footer file as they were.
  pub read-write_footer :
      (f : TableFooter) (d : Disk)
      → IsFooter f
      → IsSmall f
      → 5 ≤ d.credit
      → let (r, d') = write_footer protobuf f d in
        (r ≡ ok tt)
        × (read_footer protobuf d'.temp_footer_file ≡ ok f)
        × (d'.data_file ≡ d.data_file)
        × (d'.footer_file ≡ d.footer_file)
  read-write_footer f d h small enough =
      let (d', e, held) = write_footer-Holds protobuf f d 0 (omega arith) in
      let same = OnTemp-write_footer protobuf f d in
      (
        ap (λ (p : Result (Unit {0}) × Disk). p.0) e,
        rw (e, held.temp, whole) (read_footer-file_bytes f h small),
        same.same_data,
        same.same_footer,
      )
    where
      whole : length (postscript_bytes protobuf f) % 2 ^ 8 ≡ length (postscript_bytes protobuf f)
      whole = omega (arith, small)

  -- A footer file shorter than its last byte says is refused, and so is an empty one.
  pub read_footer_short :
      (front : List ℕ) (size : ℕ)
      → length front < 2 ^ 31
      → length front < size
      → (read_footer protobuf (some []) ≡ err invalid_cstore_file)
        × (read_footer protobuf (some (front ++ size ∷ [])) ≡ err invalid_postscript_size)
  unfolding read_footer
  read_footer_short front size small lt =
      (refl, rw (last_byte, length-append front (size ∷ [])) (ground arith))
    where
      last_byte :
          read_from_file (front ++ size ∷ []) (length (front ++ size ∷ []) - 1) 1 ≡ ok (size ∷ [])
      last_byte =
          read_from_file-append front (size ∷ []) [] (length (front ++ size ∷ []) - 1) 1
            (omega (arith, length-append front (size ∷ []))) (omega arith)
            (omega (arith, length-append front (size ∷ []))) (omega arith)
