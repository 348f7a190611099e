-- ===== src/Compression/RoundTrip.antt =====
-- What is compressed is decompressed to what it was.
use cstore_fdw.Prelude.{
  get_or-append_right, ℕ, ◌+◌, ◌-◌, ◌%◌, ◌^◌, ◌<◌, ◌≡◌, refl, ap, sym, ◌∙◌, Bool, true, false, some,
  List, ◌++◌, append_assoc, arith, ◌==◌, Option-cases, inl, inr, length, get_or, drop,
  length-append, take-all, drop-append,
}
use cstore_fdw.Result.{ok}
use cstore_fdw.Compression.{
  CompressionType, compression_type_invalid, compression_none, compression_pg_lz, Pglz, PglzLaws,
  header_size, int32_bytes, raw_size, with_header, compress_buffer, decompress_buffer,
}

-- The bytes to store for a buffer and how they are compressed, as `SerializeBlockData` chooses.
abbrev pub chosen : List ℕ → Bool × List ℕ → List ℕ × CompressionType
chosen input (true, output) = (output, compression_pg_lz)
chosen input (false, output) = (input, compression_none)

module _ (pglz : Pglz) (laws : PglzLaws pglz) where
  open pglz use {pglz_compress, pglz_decompress, set_varsize_compressed, varsize}

  with_header-eq :
      (input packed : List ℕ)
      → length packed + 8 < 2 ^ 30
      → with_header pglz input packed
        ≡ set_varsize_compressed (length packed + 8) ++ (int32_bytes (length input) ++ packed)
  unfolding with_header
  with_header-eq input packed small = take-all _ _ (
      omega (
        arith,
        laws.varsize_at (length packed + 8) (int32_bytes (length input) ++ packed) small,
        length-append (set_varsize_compressed (length packed + 8))
            (int32_bytes (length input) ++ packed),
        laws.length-varsize (length packed + 8),
      ))

  decompress-with_header :
      (input packed : List ℕ)
      → length packed + 8 < 2 ^ 30
      → length input < 2 ^ 32
      → pglz_decompress packed (length input) ≡ some input
      → decompress_buffer pglz (with_header pglz input packed) compression_pg_lz ≡ ok (some input)
  unfolding decompress_buffer
  decompress-with_header input packed small fits back = rw (
    with_header-eq input packed small,
    laws.varsize_at (length packed + 8) body small,
    size,
    whole,
    data_part,
    raw,
    take-all (length packed) packed (omega arith),
    back,
  )
    where
      body : List ℕ
      body = int32_bytes (length input) ++ packed

      buffer : List ℕ
      buffer = set_varsize_compressed (length packed + 8) ++ body

      size : (length packed + 8 + 2 ^ 32 - header_size) % 2 ^ 32 ≡ length packed
      size = omega arith

      whole : ((length packed + header_size) % 2 ^ 32 == length buffer) ≡ true
      whole = ground (
        arith,
        length-append (set_varsize_compressed (length packed + 8)) body,
        laws.length-varsize (length packed + 8),
      )

      data_part : drop header_size buffer ≡ packed
      data_part =
          ap (drop header_size) (
            sym (
              append_assoc (set_varsize_compressed (length packed + 8)) (int32_bytes (length input))
                packed))
          ∙ drop-append (set_varsize_compressed (length packed + 8) ++ int32_bytes (length input))
              packed 8
              (omega (
                arith,
                length-append (set_varsize_compressed (length packed + 8))
                    (int32_bytes (length input)),
                laws.length-varsize (length packed + 8),
              ))

      at : (k : ℕ) → get_or buffer (4 + k) 0 ≡ get_or body k 0
      at k =
          get_or-append_right (set_varsize_compressed (length packed + 8)) body (4 + k) k 0
            (omega (arith, laws.length-varsize (length packed + 8)))

      raw : raw_size buffer ≡ length input
      raw = omega (arith, at 0, at 1, at 2, at 3)

  -- Whatever type is requested and whatever the scratch buffer holds, the bytes and the type that
  -- are stored for a value buffer (below 1 GB less 12 bytes) decompress to that buffer.
  pub decompress-compress_buffer :
      (input scratch : List ℕ) (requested : CompressionType)
      → length input + 12 < 2 ^ 30
      → let (bytes, stored_type) = chosen input (compress_buffer pglz input scratch requested) in
        decompress_buffer pglz bytes stored_type ≡ ok (some input)
  unfolding compress_buffer
  decompress-compress_buffer input scratch compression_pg_lz small =
      elim (Option-cases (pglz_compress input)) [
        | inl e ↦ rw e (unfold decompress_buffer in refl)
        | inr (packed, e) ↦ rw e (
            decompress-with_header input packed (omega (arith, laws.compress_max input packed e))
              (omega arith) (laws.decompress-compress input packed e))
      ]
  decompress-compress_buffer input scratch compression_none small = unfold decompress_buffer in refl
  decompress-compress_buffer input scratch compression_type_invalid small =
      unfold decompress_buffer in refl
