-- ===== src/TableFiles/Truncate.antt =====
-- What is left of a table that is truncated (`TruncateCStoreTables`, cstore_fdw.c).
use cstore_fdw.Prelude.{
  ℕ, suc, ◌-◌, ◌%◌, ◌^◌, ◌≤◌, ◌≡◌, refl, none, some, Option, List, [], map, arith,
}
use cstore_fdw.Result.{ok}
use cstore_fdw.Postgres.{Attribute, TupleMacros}
use cstore_fdw.Compression.{Pglz}
use cstore_fdw.SkipNode.{Comparison}
use cstore_fdw.Disk.{Disk, call}
use cstore_fdw.Options.{FdwOptions}
use cstore_fdw.Protobuf.{Protobuf, ProtobufLaws}
use cstore_fdw.Types.{TableFooter}
use cstore_fdw.Metadata.Footers.{IsFooter}
use cstore_fdw.FooterFile.Read.{read_footer}
use cstore_fdw.FooterFile.RoundTrip.{IsSmall}
use cstore_fdw.Writer.{TableWriteState}
use cstore_fdw.Writer.Rows.{begin_write, open_table, empty_column, end_of_stripes, flush_rest}
use cstore_fdw.Writer.Commit.{end_write-read_footer}
use cstore_fdw.TableFiles.{delete_table_files, initialize_table_file, truncate_table}

abbrev pub empty_footer : ℕ → TableFooter
empty_footer block_row_count = record {
  stripe_metadata_list = [];
  block_row_count = block_row_count;
}

delete-at :
    (d : Disk) (n : ℕ)
    → d.credit ≡ suc (suc n)
    → delete_table_files d ≡ (ok tt, record d { data_file = none; footer_file = none; credit = n })
unfolding delete_table_files call
delete-at d n e = rw e refl

module _ (macros : TupleMacros) (pglz : Pglz) (protobuf : Protobuf)
    (laws : ProtobufLaws protobuf) where
  open macros use {Datum}

  module _ (options : FdwOptions) (attributes : List Attribute)
      (get_function_info : ℕ → Option (Comparison Datum)) where
    -- A load that begins without a footer file.
    abbrev fresh : TableWriteState Datum
    fresh = record {
      position = 0;
      table_footer = empty_footer options.block_row_count;
      compression_type = options.compression_type;
      current_file_offset = 0;
      stripe_max_row_count = options.stripe_row_count % 2 ^ 32;
      columns =
          map (empty_column macros pglz protobuf get_function_info options.block_row_count)
            attributes;
      stripe = none;
    }

    begin-at :
        (d : Disk) (n : ℕ)
        → d.footer_file ≡ none
        → d.credit ≡ suc n
        → begin_write macros pglz protobuf options.compression_type options.stripe_row_count
            options.block_row_count attributes get_function_info d
          ≡ (ok fresh, record d { data_file = some []; credit = n })
    unfolding begin_write open_table call end_of_stripes
    begin-at d n absent e = rw (absent, e) refl

    -- The files that are made where there is no footer file, on a disk where eight more calls
    -- succeed, are those of an empty table.
    pub initialize_table_file-read_footer :
        (d : Disk)
        → d.footer_file ≡ none
        → IsFooter (empty_footer options.block_row_count)
        → IsSmall protobuf laws (empty_footer options.block_row_count)
        → 8 ≤ d.credit
        → let (r, d') =
            initialize_table_file macros pglz protobuf options attributes get_function_info d in
          (r ≡ ok tt)
          × (read_footer protobuf d'.footer_file ≡ ok (empty_footer options.block_row_count))
          × (d'.data_file ≡ some [])
    unfolding initialize_table_file flush_rest
    initialize_table_file-read_footer d absent fits small enough =
        let d2 : Disk = record d { data_file = some []; credit = d.credit - 1 } in
        rw (begin-at d (d.credit - 1) absent (omega arith)) (
          end_write-read_footer macros pglz protobuf laws fresh fresh d2 d2 refl fits small
            (omega arith))

    -- Truncating a table on a disk where ten more calls succeed ends well, whatever its files held:
    -- the data file is empty, and the footer file holds a footer without stripes and with the block
    -- row count of the options, which is read back.
    pub truncate_table-read_footer :
        (d : Disk)
        → IsFooter (empty_footer options.block_row_count)
        → IsSmall protobuf laws (empty_footer options.block_row_count)
        → 10 ≤ d.credit
        → let (r, d') =
            truncate_table macros pglz protobuf options attributes get_function_info d in
          (r ≡ ok tt)
          × (read_footer protobuf d'.footer_file ≡ ok (empty_footer options.block_row_count))
          × (d'.data_file ≡ some [])
    unfolding truncate_table
    truncate_table-read_footer d fits small enough =
        let d1 : Disk = record d { data_file = none; footer_file = none; credit = d.credit - 2 } in
        rw (delete-at d (d.credit - 2) (omega arith))
          (initialize_table_file-read_footer d1 refl fits small (omega arith))
