-- ===== src/Reader/Rows/Refine.antt =====
-- `CStoreReadNextRow` (cstore_reader.c), called until it returns false, reads what the loops over
-- stripes, blocks and rows read.
use cstore_fdw.Prelude.{
  ℕ, zero, suc, ◌+◌, ◌/◌, ◌%◌, ◌^◌, ◌<◌, ◌≡◌, refl, sym, ap, subst, ◌∙◌, inl, inr, true, false,
  none, List, [], ◌∷◌, ◌++◌, arith, ◌==◌, length, drop, Bool-cases, ==_refl,
}
use cstore_fdw.Result.{ok, >>=-eq-ok, ok-injective, could_not_open, require, ◌>>=◌}
use cstore_fdw.Postgres.{Attribute, TupleMacros}
use cstore_fdw.Disk.{Disk}
use cstore_fdw.FooterFile.Read.{read_footer}
use cstore_fdw.Compression.{Pglz}
use cstore_fdw.Protobuf.{Protobuf}
use cstore_fdw.Types.{StripeMetadata}
use cstore_fdw.Reader.{StripeBuffers, Var, AttrDefault}
use cstore_fdw.Reader.Columns.{projected_column_mask, reset_uncompressed_block_data}
use cstore_fdw.Reader.Constraints.{Planner}
use cstore_fdw.Reader.Loading.{load_filtered_stripe_buffers}
use cstore_fdw.Reader.Loading.Counts.{load_filtered_stripe_buffers-lt, WhenOk-ok}
use cstore_fdw.Reader.Rows.{
  no_block, begin_read, enter_stripe, skip_stripe, load_next_stripe, ensure_stripe, read_next_row,
}
use cstore_fdw.Reader.Rows.Reference.{Row, Arrays, Scan, stripe_rows, table_rows}
use cstore_fdw.Reader.Rows.Stripe.{at, Reads, scan-stripe}

drop-suc :
    {A : Type 0} (n : ℕ) (l : List A) (x : A) (rest : List A)
    → drop n l ≡ x ∷ rest
    → drop (suc n) l ≡ rest
drop-suc zero [] x rest e = cc
drop-suc zero (y ∷ l) x rest e = ground arith
drop-suc (suc n) [] x rest e = cc
drop-suc (suc n) (y ∷ l) x rest e = drop-suc n l x rest e

module _ (macros : TupleMacros) (pglz : Pglz) (protobuf : Protobuf)
    (planner : Planner macros.Datum) where
  -- A read depends on the stripe that it finds or loads.
  read_next_row-from :
      (s s' : Scan macros pglz protobuf planner)
      → ensure_stripe macros pglz protobuf planner s s.stripe_buffers
        ≡ ensure_stripe macros pglz protobuf planner s' s'.stripe_buffers
      → read_next_row macros pglz protobuf planner s ≡ read_next_row macros pglz protobuf planner s'
  unfolding read_next_row
  read_next_row-from s s' e = rw e refl

  module _ (s : Scan macros pglz protobuf planner) (m : StripeMetadata)
      (stripes : List StripeMetadata) (stripe : StripeBuffers) (idle : s.stripe_buffers ≡ none)
      (unread : drop s.read_stripe_count s.table_footer.stripe_metadata_list ≡ m ∷ stripes)
      (few : s.read_stripe_count + suc (length stripes) < 2 ^ 32)
      (loaded : load_filtered_stripe_buffers macros protobuf planner s.table_file m s.attributes
          s.projected_columns s.where_clauses
        ≡ ok stripe) where
    count : (s.read_stripe_count + 1) % 2 ^ 32 ≡ suc s.read_stripe_count
    count = omega arith

    unread_after :
        drop ((s.read_stripe_count + 1) % 2 ^ 32) s.table_footer.stripe_metadata_list ≡ stripes
    unread_after =
        rw count (drop-suc s.read_stripe_count s.table_footer.stripe_metadata_list m stripes unread)

    -- The stripes that are unread are loaded.
    ensure_stripe-unread :
        ensure_stripe macros pglz protobuf planner s s.stripe_buffers
        ≡ load_next_stripe macros pglz protobuf planner s (m ∷ stripes)
    unfolding ensure_stripe
    ensure_stripe-unread =
        ap (ensure_stripe macros pglz protobuf planner s) idle
        ∙ ap (load_next_stripe macros pglz protobuf planner s) unread

    load_next_stripe-skip :
        (stripe.row_count == 0) ≡ true
        → load_next_stripe macros pglz protobuf planner s (m ∷ stripes)
          ≡ load_next_stripe macros pglz protobuf planner
              (skip_stripe macros pglz protobuf planner s)
              stripes
    unfolding load_next_stripe
    load_next_stripe-skip empty = rw (loaded, empty) refl

    -- A stripe without rows is passed over.
    pub read_next_row-skip :
        (stripe.row_count == 0) ≡ true
        → read_next_row macros pglz protobuf planner s
          ≡ read_next_row macros pglz protobuf planner (skip_stripe macros pglz protobuf planner s)
    unfolding ensure_stripe
    read_next_row-skip empty =
        let next = skip_stripe macros pglz protobuf planner s in
        read_next_row-from s next (
          ensure_stripe-unread
          ∙ load_next_stripe-skip empty
          ∙ sym (
              ap (ensure_stripe macros pglz protobuf planner next) idle
              ∙ ap (load_next_stripe macros pglz protobuf planner next) unread_after))

    -- The first row of a stripe is read once the stripe is entered.
    pub read_next_row-enter :
        (stripe.row_count == 0) ≡ false
        → read_next_row macros pglz protobuf planner s
          ≡ read_next_row macros pglz protobuf planner
              (enter_stripe macros pglz protobuf planner s stripe)
    unfolding ensure_stripe load_next_stripe
    read_next_row-enter some_rows =
        read_next_row-from s (enter_stripe macros pglz protobuf planner s stripe)
          (ensure_stripe-unread ∙ rw (loaded, some_rows) refl)

  -- Where a stripe of at least a row is entered, and where its last row was read.
  at-start :
      (s : Scan macros pglz protobuf planner) (stripe : StripeBuffers)
      → (0 == stripe.row_count) ≡ false
      → at macros pglz protobuf planner
          (enter_stripe macros pglz protobuf planner s stripe)
          stripe
          0
          (reset_uncompressed_block_data s.block_data)
          no_block
        ≡ enter_stripe macros pglz protobuf planner s stripe
  at-start s stripe h = rw h refl

  at-end :
      (s : Scan macros pglz protobuf planner) (stripe : StripeBuffers)
      (arrays : Arrays macros pglz protobuf planner) (k : ℕ)
      → (at macros pglz protobuf planner s stripe stripe.row_count arrays k).stripe_buffers ≡ none
  at-end s stripe arrays k = rw (==_refl stripe.row_count) refl

  nonzero : (n : ℕ) → (n == 0) ≡ false → (0 == n) ≡ false
  nonzero n h = ground arith

  -- A scan that has no stripe loaded gives the rows of the stripes that it has not read.
  scan-table_rows :
      (stripes : List StripeMetadata) (s : Scan macros pglz protobuf planner)
      (rows : List (Row macros pglz protobuf planner))
      → s.stripe_buffers ≡ none
      → drop s.read_stripe_count s.table_footer.stripe_metadata_list ≡ stripes
      → s.read_stripe_count + length stripes < 2 ^ 32
      → 0 < s.table_footer.block_row_count
      → table_rows macros pglz protobuf planner s stripes s.block_data ≡ ok rows
      → Reads macros pglz protobuf planner s rows
  unfolding read_next_row ensure_stripe load_next_stripe
  scan-table_rows [] s rows idle unread few pos done =
      subst (λ l. Reads macros pglz protobuf planner s l) (ok-injective done)
        (rw (idle, unread) refl)
  scan-table_rows (m ∷ stripes) s rows idle unread few pos done =
      let (stripe, loaded, next) =
        >>=-eq-ok
          (load_filtered_stripe_buffers macros protobuf planner s.table_file m s.attributes
            s.projected_columns s.where_clauses)
          _ done in
      elim (Bool-cases (stripe.row_count == 0)) [
        | inl e ↦
            let skipped : table_rows macros pglz protobuf planner s stripes s.block_data ≡ ok rows =
              rw e at next in
            let after = unread_after s m stripes stripe idle unread few loaded in
            let ih =
              scan-table_rows stripes (skip_stripe macros pglz protobuf planner s) rows idle after
                (omega arith) pos skipped in
            rw (read_next_row-skip s m stripes stripe idle unread few loaded e) ih
        | inr e ↦
            let entered : (stripe_rows macros pglz protobuf planner s stripe
                    (stripe.row_count / s.table_footer.block_row_count) 0
                    (reset_uncompressed_block_data s.block_data)
                  >>= (λ (rows, arrays').
                      table_rows macros pglz protobuf planner s stripes arrays'
                      >>= (λ rest. ok (rows ++ rest))))
                ≡ ok rows =
              rw e at next in
            let ((first, last), read, next') =
              >>=-eq-ok
                (stripe_rows macros pglz protobuf planner s stripe
                  (stripe.row_count / s.table_footer.block_row_count) 0
                  (reset_uncompressed_block_data s.block_data))
                _ entered in
            let (rest, others, both) =
              >>=-eq-ok (table_rows macros pglz protobuf planner s stripes last) _ next' in
            let start = enter_stripe macros pglz protobuf planner s stripe in
            let small : stripe.row_count < 2 ^ 32 =
              WhenOk-ok (λ b. b.row_count < 2 ^ 32) _ stripe
                (load_filtered_stripe_buffers-lt macros protobuf planner s.table_file m s.attributes
                  s.projected_columns s.where_clauses)
                loaded in
            let after = unread_after s m stripes stripe idle unread few loaded in
            let behind : (k : ℕ)
                → Reads macros pglz protobuf planner
                    (at macros pglz protobuf planner start stripe stripe.row_count last k) rest =
              λ k.
                scan-table_rows stripes
                  (at macros pglz protobuf planner start stripe stripe.row_count last k) rest
                  (at-end start stripe last k) after (omega arith) pos others in
            let reads =
              scan-stripe macros pglz protobuf planner start stripe
                (stripe.row_count / s.table_footer.block_row_count) 0 0 no_block
                (reset_uncompressed_block_data s.block_data) last first rest pos (omega arith)
                (omega arith) small refl read behind in
            subst (λ l. Reads macros pglz protobuf planner s l) (ok-injective both)
              (rw (read_next_row-enter s m stripes stripe idle unread few loaded e) (
                subst (λ t. Reads macros pglz protobuf planner t (first ++ rest))
                  (at-start s stripe (nonzero stripe.row_count e)) reads))
      ]

  -- After `CStoreBeginRead`, the calls of `CStoreReadNextRow` give, one at a time and in order, the
  -- rows that a loop over the stripes of the footer, in it a loop over the blocks, and in it a loop
  -- over the rows of a block gives, and then they return false, if these loops succeed, the footer
  -- has a positive block row count and less than 2 ^ 32 stripes.
  pub scan-begin_read :
      (d : Disk) (attributes : List Attribute) (defaults : List AttrDefault) (vars : List Var)
      (clauses : List planner.Expr) (s : Scan macros pglz protobuf planner)
      (rows : List (Row macros pglz protobuf planner))
      → begin_read macros pglz protobuf planner d attributes defaults vars clauses ≡ ok s
      → length s.table_footer.stripe_metadata_list < 2 ^ 32
      → 0 < s.table_footer.block_row_count
      → table_rows macros pglz protobuf planner s s.table_footer.stripe_metadata_list s.block_data
        ≡ ok rows
      → Reads macros pglz protobuf planner s rows
  unfolding begin_read
  scan-begin_read d attributes defaults vars clauses s rows begun few pos done =
      let (footer, read, next) = >>=-eq-ok (read_footer protobuf d.footer_file) _ begun in
      let (content, opened, next') = >>=-eq-ok (require d.data_file could_not_open) _ next in
      let (mask, marked, last) =
        >>=-eq-ok (projected_column_mask (length attributes) vars) _ next' in
      let result = ok-injective last in
      let unread : drop s.read_stripe_count s.table_footer.stripe_metadata_list
          ≡ s.table_footer.stripe_metadata_list =
        subst
          (λ t.
            drop t.read_stripe_count t.table_footer.stripe_metadata_list
            ≡ t.table_footer.stripe_metadata_list)
          result refl in
      let idle : s.stripe_buffers ≡ none = subst (λ t. t.stripe_buffers ≡ none) result refl in
      let none_read : s.read_stripe_count ≡ 0 = subst (λ t. t.read_stripe_count ≡ 0) result refl in
      scan-table_rows s.table_footer.stripe_metadata_list s rows idle unread (omega arith) pos done
