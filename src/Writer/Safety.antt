-- ===== src/Writer/Safety.antt =====
-- What a load leaves of a table, wherever it fails: the stripes that were there, and the footer file
-- until its very last step.
pub mod Load
use cstore_fdw.Prelude.{
  ◌%◌, ◌/◌, ◌^◌, ◌==◌, ℕ, zero, suc, ◌+◌, ◌≤◌, ◌≡◌, refl, sym, ◌∙◌, ap, Option, none, some, List,
  [], ◌∷◌, ◌++◌, arith, length, take, drop, take-append, take-append-drop, length-append,
  length-take, leb, Bool, true, false, if◌then◌else◌,
}
use cstore_fdw.Metadata.{serialize_stripe_footer}
use cstore_fdw.Result.{fail_if, fault, could_not_seek, Result, ok, err, Error}
use cstore_fdw.Postgres.{Attribute, TupleMacros}
use cstore_fdw.Compression.{CompressionType, Pglz}
use cstore_fdw.SkipNode.{Comparison}
use cstore_fdw.Disk.{Disk, Io, call, content_of, write_at, write_to_file, lift, pure}
use cstore_fdw.Disk.Writes.{write_at-behind}
use cstore_fdw.Disk.Triples.{
  Triple, Triple-bind, Triple-lift, Triple-call, Triple-if, Triple-given, Outcome,
}
use cstore_fdw.Protobuf.{Protobuf}
use cstore_fdw.Types.{StripeMetadata, TableFooter}
use cstore_fdw.FooterFile.Write.{write_footer, sync_and_close_file}
use cstore_fdw.FooterFile.Write.Effects.{SameFiles, OnTemp-write_footer}
use cstore_fdw.FooterFile.Read.{read_footer}
use cstore_fdw.Writer.{WriteColumn, Stripe, TableWriteState}
use cstore_fdw.Writer.Flush.{
  write_chunks, write_sections, flush_stripe, serialize_last_block, create_skip_list_buffer_array,
  create_stripe_footer,
}
use cstore_fdw.Writer.Column.{for_columns, write_cells}
use cstore_fdw.Writer.Blocks.{place_column, data_chunks}
use cstore_fdw.Writer.Rows.{
  start_stripe, finish_block, finish_stripe, begin_write, open_table, end_of_stripes,
  flush_and_append, write_row, write_rows, flush_rest, commit_footer, end_write, load,
}

-- The data file begins with these bytes.
abbrev pub Begins : List ℕ → Disk → Type 0
Begins kept d = (rest : List ℕ) × (content_of d.data_file ≡ kept ++ rest)

-- The footer file is this one, too.
abbrev pub Safe : List ℕ → Option (List ℕ) → Disk → Type 0
Safe kept footer d = Begins kept d × (d.footer_file ≡ footer)

module _ (kept : List ℕ) (footer : Option (List ℕ)) where
  -- An action that keeps both, and whose result stands behind what is kept.
  abbrev pub Keeps : {A : Type 0} → Io A → (A → ℕ) → Type 0
  Keeps m position =
      Triple (Safe kept footer) m (λ a d. (length kept ≤ position a) × Safe kept footer d)
        (λ _. Safe kept footer)

  Safe-write :
      (d : Disk) (position : ℕ) (bytes : List ℕ) (credit : ℕ)
      → length kept ≤ position
      → Safe kept footer d
      → Safe kept footer (record d {
        data_file = some (write_at (content_of d.data_file) position bytes);
        credit = credit;
      })
  Safe-write d position bytes credit h ((rest, e), same) =
      let (rest', e') = write_at-behind kept rest bytes position h in
      ((rest', ap (λ l. write_at l position bytes) e ∙ e'), same)

  write_to_file-Keeps :
      (position : ℕ) (bytes : List ℕ)
      → length kept ≤ position
      → Triple
          (Safe kept footer)
          (write_to_file position bytes)
          (λ _. Safe kept footer)
          (λ _. Safe kept footer)
  unfolding write_to_file
  write_to_file-Keeps position [] h = record { run = λ d s. s }
  write_to_file-Keeps position (b ∷ bytes) h =
      Triple-call _
        (λ d. record d {
          data_file = some (write_at (content_of d.data_file) position (b ∷ bytes));
        })
        (λ d s. s) (λ d credit s. Safe-write d position (b ∷ bytes) credit h s)

  write_chunks-Keeps :
      (position : ℕ) (chunks : List (List ℕ))
      → length kept ≤ position
      → Keeps (write_chunks position chunks) (λ p. p)
  unfolding write_chunks
  write_chunks-Keeps position [] h = record { run = λ d s. (h, s) }
  write_chunks-Keeps position (chunk ∷ chunks) h =
      Triple-bind _ _ (write_to_file-Keeps position chunk h)
        (λ _. write_chunks-Keeps (position + length chunk) chunks (omega arith))

  write_sections-Keeps :
      (position : ℕ) (skip_lists buffers : List (List ℕ)) (stripe_footer : List ℕ)
      → length kept ≤ position
      → Keeps (write_sections position skip_lists buffers stripe_footer) (λ p. p)
  unfolding write_sections
  write_sections-Keeps position skip_lists buffers stripe_footer h =
      Triple-bind (write_chunks position skip_lists) _ (write_chunks-Keeps position skip_lists h)
        (λ behind. Triple-given (λ h'.
          Triple-bind (write_chunks behind buffers) _ (write_chunks-Keeps behind buffers h')
            (λ after. Triple-given (λ h''.
              Triple-bind (write_to_file after stripe_footer) _
                (write_to_file-Keeps after stripe_footer h'')
                (λ _. record { run = λ d s. (omega arith, s) })))))

  pub Triple-pass :
      {A : Type 0} (r : Result A)
      → Triple (Safe kept footer) (lift r) (λ _. Safe kept footer) (λ _. Safe kept footer)
  Triple-pass r = Triple-lift r (λ e d f s. s) (λ a d e s. s)

  sync-Safe :
      Triple (Safe kept footer) sync_and_close_file (λ _. Safe kept footer) (λ _. Safe kept footer)
  unfolding sync_and_close_file
  sync-Safe = Triple-call _ (λ d. d) (λ d s. s) (λ d credit s. s)

  write_footer-Safe :
      (protobuf : Protobuf) (f : TableFooter)
      → Triple
          (Safe kept footer)
          (write_footer protobuf f)
          (λ _. Safe kept footer)
          (λ _. Safe kept footer)
  write_footer-Safe protobuf f = record {
    run = λ d s. either (write_footer protobuf f d) s (OnTemp-write_footer protobuf f d);
  }
    where
      either :
          {d : Disk} (r : Result (Unit {0}) × Disk)
          → Safe kept footer d
          → SameFiles d r.1
          → Outcome (λ _. Safe kept footer) (λ _. Safe kept footer) r
      either (ok u, d') ((rest, e), f) same =
          ((rest, ap content_of same.same_data ∙ e), same.same_footer ∙ f)
      either (err u, d') ((rest, e), f) same =
          ((rest, ap content_of same.same_data ∙ e), same.same_footer ∙ f)

  module _ (macros : TupleMacros) (pglz : Pglz) (protobuf : Protobuf) where
    open macros use {Datum}

    flush_stripe-Keeps :
        (w : TableWriteState Datum) (stripe : Stripe)
        → length kept ≤ w.position
        → Keeps (flush_stripe macros pglz protobuf w stripe) (λ r. r.1.position)
    unfolding flush_stripe
    flush_stripe-Keeps w stripe h =
        Triple-bind (lift (serialize_last_block macros pglz protobuf w stripe)) _ (Triple-pass _)
          (λ serialized.
            Triple-bind (lift (for_columns (place_column stripe.block_count) serialized)) _
              (Triple-pass _)
              (λ columns.
                Triple-bind (lift (data_chunks stripe.block_count columns)) _ (Triple-pass _)
                  (λ buffers.
                    let skip_lists =
                      create_skip_list_buffer_array macros pglz protobuf stripe.block_count
                        columns in
                    let stripe_footer =
                      create_stripe_footer macros pglz protobuf stripe.block_count columns
                        skip_lists in
                    let bytes = serialize_stripe_footer protobuf stripe_footer in
                    Triple-bind (write_sections w.position skip_lists buffers bytes) _
                      (write_sections-Keeps w.position skip_lists buffers bytes h)
                      (λ position. record { run = λ d s. s }))))

    flush_and_append-Keeps :
        (w : TableWriteState Datum) (stripe : Stripe)
        → length kept ≤ w.position
        → Keeps (flush_and_append macros pglz protobuf w stripe) (λ w'. w'.position)
    unfolding flush_and_append
    flush_and_append-Keeps w stripe h =
        Triple-bind (flush_stripe macros pglz protobuf w stripe) _ (flush_stripe-Keeps w stripe h)
          (λ r. record { run = λ d s. s })

    finish_stripe-Keeps :
        (w : TableWriteState Datum) (stripe : Stripe)
        → length kept ≤ w.position
        → Keeps (finish_stripe macros pglz protobuf w stripe) (λ w'. w'.position)
    unfolding finish_stripe
    finish_stripe-Keeps w stripe h =
        Triple-if (leb w.stripe_max_row_count stripe.row_count)
          (flush_and_append macros pglz protobuf w stripe) (pure w)
          (flush_and_append-Keeps w stripe h) (record { run = λ d s. (h, s) })

    write_row-Keeps :
        (w : TableWriteState Datum) (row : List (Option Datum))
        → length kept ≤ w.position
        → Keeps (write_row macros pglz protobuf w row) (λ w'. w'.position)
    unfolding write_row
    write_row-Keeps w row h =
        let rows = w.table_footer.block_row_count % 2 ^ 32 in
        let (stripe, started) = start_stripe macros pglz protobuf rows w w.stripe in
        let block = stripe.row_count / rows in
        let index = stripe.row_count % rows in
        Triple-bind (lift (fail_if (rows == 0) fault)) _ (Triple-pass _) (λ _.
          Triple-bind (lift (write_cells macros pglz block index started row)) _ (Triple-pass _)
            (λ written.
              Triple-bind (lift (finish_block macros pglz protobuf rows w block index written)) _
                (Triple-pass _) (λ columns. finish_stripe-Keeps _ _ h)))

    pub write_rows-Keeps :
        (w : TableWriteState Datum) (rows : List (List (Option Datum)))
        → length kept ≤ w.position
        → Keeps (write_rows macros pglz protobuf w rows) (λ w'. w'.position)
    unfolding write_rows
    write_rows-Keeps w [] h = record { run = λ d s. (h, s) }
    write_rows-Keeps w (row ∷ rows) h =
        Triple-bind (write_row macros pglz protobuf w row) _ (write_row-Keeps w row h)
          (λ w'. Triple-given (λ h'. write_rows-Keeps w' rows h'))

    flush_rest-Keeps :
        (w : TableWriteState Datum) (stripe : Option Stripe)
        → length kept ≤ w.position
        → Keeps (flush_rest macros pglz protobuf w stripe) (λ w'. w'.position)
    unfolding flush_rest
    flush_rest-Keeps w none h = record { run = λ d s. (h, s) }
    flush_rest-Keeps w (some stripe) h = flush_and_append-Keeps w stripe h

    commit_footer-Begins :
        Triple
          (Safe kept footer)
          (commit_footer macros pglz protobuf)
          (λ _. Begins kept)
          (λ _. Safe kept footer)
    unfolding commit_footer
    commit_footer-Begins =
        Triple-call _ (λ d. record d { footer_file = d.temp_footer_file; temp_footer_file = none })
          (λ d s. s) (λ d credit s. s.0)

    pub end_write-Safe :
        (w : TableWriteState Datum)
        → length kept ≤ w.position
        → Triple
            (Safe kept footer)
            (end_write macros pglz protobuf w)
            (λ _. Begins kept)
            (λ _. Safe kept footer)
    unfolding end_write
    end_write-Safe w h =
        Triple-bind (flush_rest macros pglz protobuf w w.stripe) _ (flush_rest-Keeps w w.stripe h)
          (λ w'. Triple-given (λ h'. Triple-bind sync_and_close_file _ sync-Safe (λ _.
            Triple-bind (write_footer protobuf w'.table_footer) _
              (write_footer-Safe protobuf w'.table_footer) (λ _. commit_footer-Begins))))
