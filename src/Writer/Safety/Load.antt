-- ===== src/Writer/Safety/Load.antt =====
-- A whole load, as `CopyIntoCStoreTable` (cstore_fdw.c) runs it, wherever it fails.
use cstore_fdw.Prelude.{
  ◌^◌, ℕ, ◌≤◌, ◌≡◌, refl, sym, ◌∙◌, ap, Option, none, some, List, arith, length, take, drop,
  take-append, take-append-drop, length-take, leb,
}
use cstore_fdw.Result.{fail_if, could_not_seek, Result, ok, err, Error}
use cstore_fdw.Postgres.{Attribute, TupleMacros}
use cstore_fdw.Compression.{CompressionType, Pglz}
use cstore_fdw.SkipNode.{Comparison}
use cstore_fdw.Disk.{Disk, content_of, lift}
use cstore_fdw.Disk.Triples.{Triple, Triple-bind, Triple-given, Outcome}
use cstore_fdw.Protobuf.{Protobuf}
use cstore_fdw.Types.{TableFooter}
use cstore_fdw.FooterFile.Read.{read_footer}
use cstore_fdw.Writer.Rows.{begin_write, open_table, end_of_stripes, write_rows, load}
use cstore_fdw.Writer.Safety.{Begins, Safe, Keeps, Triple-pass, write_rows-Keeps, end_write-Safe}

module _ (protobuf : Protobuf) (kept : List ℕ) (footer : Option (List ℕ)) (f : TableFooter)
    (reads : read_footer protobuf footer ≡ ok f) where
  open_table-at :
      (block_rows : ℕ) (data_file footer_file temp_footer_file : Option (List ℕ)) (credit : ℕ)
      → let d : Disk = record {
        data_file = data_file;
        footer_file = footer_file;
        temp_footer_file = temp_footer_file;
        credit = credit;
      } in
        Safe kept footer d
        → Outcome
            (λ f' d. (f' ≡ f) × Safe kept footer d)
            (λ _. Safe kept footer)
            (open_table protobuf block_rows d)
  unfolding open_table read_footer
  open_table-at block_rows data_file none temp credit s =
      absurd (cc (ap (read_footer protobuf) (s.1) ∙ reads))
  open_table-at block_rows none (some content) temp credit s = s
  open_table-at block_rows (some bytes) (some content) temp credit s =
      rw (ap (read_footer protobuf) (s.1) ∙ reads) (refl, s)

  open_table-Keeps :
      (block_rows : ℕ)
      → Triple
          (Safe kept footer)
          (open_table protobuf block_rows)
          (λ f' d. (f' ≡ f) × Safe kept footer d)
          (λ _. Safe kept footer)
  open_table-Keeps block_rows = record {
    run = λ d s. open_table-at block_rows d.data_file d.footer_file d.temp_footer_file d.credit s;
  }

  module _ (macros : TupleMacros) (pglz : Pglz) where
    open macros use {Datum}

    begin_write-Keeps :
        (compression : CompressionType) (stripe_rows block_rows : ℕ) (attributes : List Attribute)
        (get_function_info : ℕ → Option (Comparison Datum))
        → length kept ≤ end_of_stripes f.stripe_metadata_list
        → Keeps kept footer
            (begin_write macros pglz protobuf compression stripe_rows block_rows attributes
              get_function_info)
            (λ w. w.position)
    unfolding begin_write
    begin_write-Keeps compression stripe_rows block_rows attributes get_function_info h =
        Triple-bind (open_table protobuf block_rows) _ (open_table-Keeps block_rows) (λ f'.
          Triple-given (λ e.
            Triple-bind
              (lift
                (fail_if (leb (2 ^ 63) (end_of_stripes f'.stripe_metadata_list)) could_not_seek))
              _ (Triple-pass kept footer _) (λ _. record { run = λ d s. (rw e h, s) })))

    load-Outcome :
        (compression : CompressionType) (stripe_rows block_rows : ℕ) (attributes : List Attribute)
        (get_function_info : ℕ → Option (Comparison Datum)) (rows : List (List (Option Datum)))
        → length kept ≤ end_of_stripes f.stripe_metadata_list
        → Triple
            (Safe kept footer)
            (load macros pglz protobuf compression stripe_rows block_rows attributes
              get_function_info rows)
            (λ _. Begins kept)
            (λ _. Safe kept footer)
    unfolding load
    load-Outcome compression stripe_rows block_rows attributes get_function_info rows h =
        Triple-bind
          (begin_write macros pglz protobuf compression stripe_rows block_rows attributes
            get_function_info)
          _ (begin_write-Keeps compression stripe_rows block_rows attributes get_function_info h)
          (λ w. Triple-given (λ h'.
            Triple-bind (write_rows macros pglz protobuf w rows) _
              (write_rows-Keeps kept footer macros pglz protobuf w rows h')
              (λ w'. Triple-given (λ h''. end_write-Safe kept footer macros pglz protobuf w' h''))))

-- What an outcome says of the result.
Outcome-split :
    (kept : List ℕ) (footer : Option (List ℕ)) (n : ℕ) (r : Result (Unit {0})) (d : Disk)
    → n ≡ length kept
    → Outcome (λ _. Begins kept) (λ _. Safe kept footer) (r, d)
    → (take n (content_of d.data_file) ≡ kept) × ((e : Error) → r ≡ err e → d.footer_file ≡ footer)
Outcome-split kept footer n (ok u) d e (rest, b) =
    (ap (take n) b ∙ take-append kept rest n e, λ _ h. cc)
Outcome-split kept footer n (err x) d e ((rest, b), same) =
    (ap (take n) b ∙ take-append kept rest n e, λ _ _. same)

-- A load onto a table whose footer can be read, and whose data file reaches the end of its last
-- stripe, leaves in the data file every byte up to that end, whether it succeeds or fails, and where
-- it fails, the footer file as it was.
pub load-Safe :
    (macros : TupleMacros) (pglz : Pglz) (protobuf : Protobuf) (compression : CompressionType)
    (stripe_rows block_rows : ℕ) (attributes : List Attribute)
    (get_function_info : ℕ → Option (Comparison macros.Datum))
    (rows : List (List (Option macros.Datum))) (d : Disk) (f : TableFooter) (content : List ℕ)
    → read_footer protobuf d.footer_file ≡ ok f
    → d.data_file ≡ some content
    → end_of_stripes f.stripe_metadata_list ≤ length content
    → let n = end_of_stripes f.stripe_metadata_list in
      let (r, d') =
        load macros pglz protobuf compression stripe_rows block_rows attributes get_function_info
          rows d in
      (take n (content_of d'.data_file) ≡ take n content)
      × ((e : Error) → r ≡ err e → d'.footer_file ≡ d.footer_file)
load-Safe macros pglz protobuf compression stripe_rows block_rows attributes get_function_info rows
      d f content reads has_data whole =
    let n = end_of_stripes f.stripe_metadata_list in
    let kept = take n content in
    let size : n ≡ length kept = omega (arith, length-take n content) in
    let begins : Begins kept d =
      (drop n content, ap content_of has_data ∙ sym (take-append-drop n content)) in
    Outcome-split kept d.footer_file n _ _ size (
      (load-Outcome protobuf kept d.footer_file f reads macros pglz compression stripe_rows
          block_rows attributes get_function_info rows (omega arith)).run
        d (begins, refl))
