-- ===== src/Tests/Layout.antt =====
-- The theorem on the places of blocks, at concrete inputs.
use cstore_fdw.Prelude.{some, List, [], ◌∷◌, refl, arith}
use cstore_fdw.Compression.{compression_none, compression_pg_lz}
use cstore_fdw.Writer.{ColumnBlockBuffers}
use cstore_fdw.Writer.Blocks.{place_blocks, block_chunks}
use cstore_fdw.Writer.Blocks.Layout.{joined, Located, place_blocks-Located}
use cstore_fdw.Writer.Invariant.Column.{Succeeds}
use cstore_fdw.Tests.Files.{nodes}

abbrev two_buffers : List ColumnBlockBuffers
two_buffers =
    record {
      exists_buffer = some (255 ∷ 3 ∷ []);
      value_buffer = some (1 ∷ 2 ∷ 3 ∷ []);
      value_compression_type = compression_none;
    }
    ∷ record {
      exists_buffer = some (7 ∷ []);
      value_buffer = some (9 ∷ 9 ∷ []);
      value_compression_type = compression_pg_lz;
    }
    ∷ []

places_example :
    Succeeds
      (λ placed.
        Located
          (joined ((255 ∷ 3 ∷ []) ∷ (7 ∷ []) ∷ []))
          (joined ((1 ∷ 2 ∷ 3 ∷ []) ∷ (9 ∷ 9 ∷ []) ∷ []))
          2
          placed
          two_buffers)
      (place_blocks 2 0 0 nodes two_buffers)
unfolding block_chunks
places_example =
    place_blocks-Located 2 nodes two_buffers ((255 ∷ 3 ∷ []) ∷ (7 ∷ []) ∷ [])
      ((1 ∷ 2 ∷ 3 ∷ []) ∷ (9 ∷ 9 ∷ []) ∷ []) refl refl (omega arith) (omega arith) (omega arith)
