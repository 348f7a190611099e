-- ===== src/Writer/Invariant/Overrun/Load.antt =====
-- A load into a table whose blocks have more rows than the load's option `block_row_count` says
-- (`CStoreBeginWrite` and `CStoreWriteRow`, cstore_writer.c).
use cstore_fdw.Prelude.{
  ℕ, ◌^◌, ◌≤◌, ◌<◌, ◌≡◌, ◌≢◌, refl, false, Option, none, List, ◌∷◌, arith, length, leb,
  Option-cases, inl, inr, length-replicate,
}
use cstore_fdw.Result.{Result, ok, err, could_not_seek, fail_if}
use cstore_fdw.Postgres.{Attribute, TupleMacros}
use cstore_fdw.Compression.{CompressionType, Pglz}
use cstore_fdw.SkipNode.{Comparison}
use cstore_fdw.Disk.{Disk, lift}
use cstore_fdw.Disk.Triples.{Outcome, Triple, Triple-bind, Triple-given, Triple-any}
use cstore_fdw.Protobuf.{Protobuf}
use cstore_fdw.Types.{TableFooter}
use cstore_fdw.FooterFile.Read.{read_footer}
use cstore_fdw.Writer.Rows.{write_rows, begin_write, open_table, load, end_of_stripes}
use cstore_fdw.Writer.Invariant.Overrun.{InFirstBlock, write_rows-overrun}

module _ (macros : TupleMacros) (pglz : Pglz) (protobuf : Protobuf) where
  open macros use {Datum}

  no_footer : (footer : TableFooter) → read_footer protobuf none ≢ ok footer
  unfolding read_footer
  no_footer footer e = cc

  open_table-footer :
      (b : ℕ) (footer : TableFooter) (d : Disk)
      → read_footer protobuf d.footer_file ≡ ok footer
      → Outcome (λ f d'. (f ≡ footer) × Unit {0}) (λ e d'. Unit {0}) (open_table protobuf b d)
  unfolding open_table
  open_table-footer b footer d h = elim (Option-cases d.footer_file) [
    | inl e ↦ absurd (no_footer footer (rw e at h))
    | inr (content, e) ↦ elim (Option-cases d.data_file) [
      | inl e' ↦ rw (e, e') tt
      | inr (data_content, e') ↦ (let h' = (rw e at h) in rw (e, e', h') (refl, tt))
    ]
  ]

  begin_write-InFirstBlock :
      (compression : CompressionType) (stripe_rows block_rows : ℕ) (a : Attribute)
      (attributes : List Attribute) (get_function_info : ℕ → Option (Comparison Datum))
      (footer : TableFooter)
      → block_rows < footer.block_row_count
      → footer.block_row_count ≤ 100000
      → block_rows < stripe_rows
      → stripe_rows ≤ 10000000
      → Triple
          (λ d. read_footer protobuf d.footer_file ≡ ok footer)
          (begin_write macros pglz protobuf compression stripe_rows block_rows
            (a ∷ attributes)
            get_function_info)
          (λ w d. InFirstBlock macros pglz protobuf block_rows 0 w × Unit {0})
          (λ e d. Unit {0})
  unfolding begin_write
  begin_write-InFirstBlock compression stripe_rows block_rows a attributes info footer longer max
        stripe small =
      Triple-bind (open_table protobuf block_rows) _
        (record { run = λ d h. open_table-footer block_rows footer d h })
        (λ f. Triple-given (λ same.
          Triple-bind
            (lift (fail_if (leb (2 ^ 63) (end_of_stripes f.stripe_metadata_list)) could_not_seek)) _
            (Triple-any _)
            (λ _. record {
              run = λ d u. (
                record {
                  first_sized = length-replicate block_rows false;
                  block_longer = rw same longer;
                  block_max = rw same max;
                  stripe_longer = omega arith;
                  rows = refl;
                },
                tt,
              );
            })))

  not_ok : (r : Result (Unit {0}) × Disk) → Outcome (λ u d. ⊥) (λ e d. Unit {0}) r → r.0 ≢ ok tt
  not_ok (ok u, d) h = absurd h
  not_ok (err e, d) h = λ same. cc

  -- Into a table with a footer, of which the blocks have more rows than the load's option
  -- `block_row_count` says, no load of more rows than that option ends well, if a stripe takes more
  -- rows than the option, too: `existsArray` is allocated with the option's length, and rows are put
  -- into it by the footer's.
  pub load-overrun :
      (compression : CompressionType) (stripe_rows block_rows : ℕ) (a : Attribute)
      (attributes : List Attribute) (get_function_info : ℕ → Option (Comparison Datum))
      (rows : List (List (Option Datum))) (d : Disk) (footer : TableFooter)
      → read_footer protobuf d.footer_file ≡ ok footer
      → block_rows < footer.block_row_count
      → footer.block_row_count ≤ 100000
      → block_rows < stripe_rows
      → stripe_rows ≤ 10000000
      → block_rows < length rows
      → (load macros pglz protobuf compression stripe_rows block_rows
          (a ∷ attributes)
          get_function_info
          rows
          d).0
        ≢ ok tt
  unfolding load
  load-overrun compression stripe_rows block_rows a attributes info rows d footer h longer max
        stripe small many =
      not_ok _ (
        (Triple-bind
            (begin_write macros pglz protobuf compression stripe_rows block_rows (a ∷ attributes)
              info)
            _
            (begin_write-InFirstBlock compression stripe_rows block_rows a attributes info footer
              longer max stripe small)
            (λ w. Triple-given (λ first.
              Triple-bind (write_rows macros pglz protobuf w rows) _
                (write_rows-overrun macros pglz protobuf block_rows 0 w rows first (omega arith)
                  (omega (arith, many)))
                (λ w'. Triple-given (λ impossible. absurd impossible))))).run
          d h)
