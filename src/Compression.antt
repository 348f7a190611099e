-- ===== src/Compression.antt =====
-- cstore_compression.c, built against PostgreSQL 9.5 or later on a little-endian machine. pglz and
-- the varlena header macros of PostgreSQL are parameters.
pub mod RoundTrip
use cstore_fdw.Prelude.{
  ℕ, ◌+◌, ◌-◌, ◌*◌, ◌/◌, ◌%◌, ◌^◌, ◌≤◌, ◌<◌, ◌≡◌, Bool, true, false, not, Option, none, some, List,
  [], ◌∷◌, ◌++◌, ◌==◌, if◌then◌else◌, length, get_or, take, drop,
}
use cstore_fdw.Result.{
  Result, ok, err, wrong_compressed_size, corrupted_compressed_data, fault, fail_if, require, ◌>>=◌,
  ◌>>◌,
}

pub data CompressionType : Type 0 where
  compression_type_invalid compression_none compression_pg_lz : CompressionType

-- `pglz_compress` with `PGLZ_strategy_always` and `pglz_decompress` (`none` for a negative result),
-- `SET_VARSIZE_COMPRESSED` as the four bytes that it writes, and `VARSIZE`.
pub record Pglz : Type 0 where
  pub pglz_compress : List ℕ → Option (List ℕ)
  pub pglz_decompress : List ℕ → ℕ → Option (List ℕ)
  pub set_varsize_compressed : ℕ → List ℕ
  pub varsize : List ℕ → ℕ

pub record PglzLaws (pglz : Pglz) : Type 0 where
  pub decompress-compress :
      (raw packed : List ℕ)
      → pglz.pglz_compress raw ≡ some packed
      → pglz.pglz_decompress packed (length raw) ≡ some raw
  -- `PGLZ_MAX_OUTPUT`
  pub compress_max :
      (raw packed : List ℕ) → pglz.pglz_compress raw ≡ some packed → length packed ≤ length raw + 4
  pub length-varsize : (n : ℕ) → length (pglz.set_varsize_compressed n) ≡ 4
  pub varsize_at :
      (n : ℕ) (rest : List ℕ)
      → n < 2 ^ 30
      → pglz.varsize (pglz.set_varsize_compressed n ++ rest) ≡ n

-- `CSTORE_COMPRESS_HDRSZ`
abbrev pub header_size : ℕ
header_size = 8

-- the field `rawsize`, behind the four bytes of `vl_len_`
abbrev pub int32_bytes : ℕ → List ℕ
int32_bytes n = n % 256 ∷ (n / 256 % 256) ∷ (n / 65536 % 256) ∷ (n / 16777216 % 256) ∷ []

abbrev pub raw_size : List ℕ → ℕ
raw_size buffer =
    get_or buffer 4 0
    + get_or buffer 5 0 * 256
    + get_or buffer 6 0 * 65536
    + get_or buffer 7 0 * 16777216

module _ (pglz : Pglz) where
  open pglz use {pglz_compress, pglz_decompress, set_varsize_compressed, varsize}

  -- the output buffer, with its length from the header
  pub with_header : List ℕ → List ℕ → List ℕ
  with_header input packed =
      let bytes =
        set_varsize_compressed (length packed + header_size)
        ++ (int32_bytes (length input) ++ packed) in
      take (varsize bytes) bytes

  pub compressed_output : List ℕ → Option (List ℕ) → Bool × List ℕ
  compressed_output input none = (false, [])
  compressed_output input (some packed) = (true, with_header input packed)

  -- The result, and the content of `outputBuffer`.
  unfoldable pub compress_buffer : List ℕ → List ℕ → CompressionType → Bool × List ℕ
  unfolding compressed_output with_header
  compress_buffer input output compression_pg_lz = compressed_output input (pglz_compress input)
  compress_buffer input output _ = (false, output)

  -- Any other type, which an assertion excludes, leaves a NULL.
  unfoldable pub decompress_buffer : List ℕ → CompressionType → Result (Option (List ℕ))
  decompress_buffer buffer compression_none = ok (some buffer)
  decompress_buffer buffer compression_pg_lz = do
    let compressed_size = (varsize buffer + 2 ^ 32 - header_size) % 2 ^ 32
    fail_if (not ((compressed_size + header_size) % 2 ^ 32 == length buffer)) wrong_compressed_size
    bytes ←
        require (pglz_decompress (take compressed_size (drop header_size buffer)) (raw_size buffer))
          corrupted_compressed_data
    ok (some bytes)
  decompress_buffer buffer compression_type_invalid = ok none
