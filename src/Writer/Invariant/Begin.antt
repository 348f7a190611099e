-- ===== src/Writer/Invariant/Begin.antt =====
-- `CStoreBeginWrite` establishes the invariant.
use cstore_fdw.Prelude.{
  ℕ, ◌^◌, ◌≤◌, ◌≡◌, false, Option, List, [], ◌∷◌, arith, length, map, All, leb, length-map,
  length-replicate,
}
use cstore_fdw.Result.{ok, could_not_seek, fail_if}
use cstore_fdw.Postgres.{Attribute, TupleMacros}
use cstore_fdw.Compression.{CompressionType, Pglz}
use cstore_fdw.SkipNode.{Comparison}
use cstore_fdw.Disk.{Disk, lift}
use cstore_fdw.Disk.Triples.{Triple, Triple-bind, Triple-any, Outcome-ok}
use cstore_fdw.Protobuf.{Protobuf}
use cstore_fdw.Writer.{WriteColumn, TableWriteState}
use cstore_fdw.Writer.Rows.{empty_column, begin_write, open_table, end_of_stripes}
use cstore_fdw.Writer.Invariant.Rows.{IsBetween}

module _ (macros : TupleMacros) (pglz : Pglz) (protobuf : Protobuf) where
  open macros use {Datum}

  empty_columns :
      (rows : ℕ) (attributes : List Attribute) (get_function_info : ℕ → Option (Comparison Datum))
      → All
          (λ (c : WriteColumn Datum). length c.exists_array ≡ rows)
          (map (empty_column macros pglz protobuf get_function_info rows) attributes)
  empty_columns rows [] get_function_info = tt
  empty_columns rows (a ∷ attributes) get_function_info =
      (length-replicate rows false, empty_columns rows attributes get_function_info)

  begin_write-Triple :
      (compression : CompressionType) (stripe_rows block_rows : ℕ) (attributes : List Attribute)
      (get_function_info : ℕ → Option (Comparison Datum))
      → 1000 ≤ stripe_rows
      → stripe_rows ≤ 10000000
      → 1000 ≤ block_rows
      → block_rows ≤ 100000
      → Triple
          (λ d. Unit {0})
          (begin_write macros pglz protobuf compression stripe_rows block_rows attributes
            get_function_info)
          (λ w d. w.table_footer.block_row_count ≡ block_rows → IsBetween (length attributes) w)
          (λ e d. Unit {0})
  unfolding begin_write
  begin_write-Triple compression stripe_rows block_rows attributes get_function_info a b c h =
      Triple-bind (open_table protobuf block_rows) _ (Triple-any _) (λ footer.
        Triple-bind
          (lift
            (fail_if (leb (2 ^ 63) (end_of_stripes footer.stripe_metadata_list)) could_not_seek))
          _ (Triple-any _)
          (λ _. record {
            run = λ d u same. (
              record {
                block_min = omega arith;
                block_max = omega arith;
                stripe_max = omega arith;
                stripe_min = omega arith;
                exists_sized = rw same (empty_columns block_rows attributes get_function_info);
                wide = length-map _ attributes;
              },
              tt,
            );
          }))

  -- Where a load begins with row counts in the range of the options, and the table's blocks have
  -- as many rows as the load's option says, it is between two rows.
  pub begin_write-IsBetween :
      (compression : CompressionType) (stripe_rows block_rows : ℕ) (attributes : List Attribute)
      (get_function_info : ℕ → Option (Comparison Datum)) (d d' : Disk) (w : TableWriteState Datum)
      → begin_write macros pglz protobuf compression stripe_rows block_rows attributes
          get_function_info d
        ≡ (ok w, d')
      → 1000 ≤ stripe_rows
      → stripe_rows ≤ 10000000
      → 1000 ≤ block_rows
      → block_rows ≤ 100000
      → w.table_footer.block_row_count ≡ block_rows
      → IsBetween (length attributes) w
  begin_write-IsBetween compression stripe_rows block_rows attributes get_function_info d d' w e a b
        c h =
      Outcome-ok
        (λ w d. w.table_footer.block_row_count ≡ block_rows → IsBetween (length attributes) w) _ w
        d' e
        ((begin_write-Triple compression stripe_rows block_rows attributes get_function_info a b c
            h).run
          d tt)
