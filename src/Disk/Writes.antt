-- ===== src/Disk/Writes.antt =====
-- Laws of reads and writes.
use cstore_fdw.Prelude.{
  leb, false, drop-append_more, ℕ, ◌+◌, ◌-◌, ◌%◌, ◌^◌, ◌<◌, ◌≡◌, refl, List, [], ◌∷◌, ◌++◌,
  append_assoc, arith, length, drop, replicate, take, take-append, take-append_more, drop-append,
  length-append, ◌≤◌,
}
use cstore_fdw.Result.{ok}
use cstore_fdw.StringInfo.{max_alloc_size}
use cstore_fdw.Disk.{write_at, read_from_file}

-- Bytes that stand somewhere in a file are read from there.
pub read_from_file-append :
    (before bytes after : List ℕ) (offset size : ℕ)
    → offset ≡ length before
    → size ≡ length bytes
    → offset < 2 ^ 63
    → size < 2 ^ 30 - 1
    → read_from_file (before ++ (bytes ++ after)) offset size ≡ ok bytes
unfolding read_from_file
read_from_file-append before [] after offset size eo es small fits =
    let empty : size ≡ 0 = omega arith in rw empty refl
read_from_file-append before (b ∷ bytes) after offset size eo es small fits =
    rw (whole, below)
      (ground (
        arith,
        drop-append before rest offset eo,
        take-append (b ∷ bytes) after size es,
        length-append before rest,
        length-append (b ∷ bytes) after,
      ))
  where
    rest : List ℕ
    rest = (b ∷ bytes) ++ after

    whole : size % 2 ^ 32 ≡ size
    whole = omega arith

    below : leb max_alloc_size size ≡ false
    below = ground (arith, fits)

-- Writing at the end of the first part of a file keeps that part.
pub write_at-append :
    (before after bytes : List ℕ) (position : ℕ)
    → position ≡ length before
    → write_at (before ++ after) position bytes ≡ before ++ (bytes ++ drop (length bytes) after)
unfolding write_at
write_at-append before after bytes position e = rw (
  append_assoc before after zeros,
  take-append before (after ++ zeros) position e,
  drop-append_more before after (position + length bytes) (length bytes) (omega arith),
)
  where
    zeros : List ℕ
    zeros = replicate (position - length (before ++ after)) 0

-- A write behind the first part of a file keeps that part.
pub write_at-behind :
    (before after bytes : List ℕ) (position : ℕ)
    → length before ≤ position
    → (rest : List ℕ) × (write_at (before ++ after) position bytes ≡ before ++ rest)
unfolding write_at
write_at-behind before after bytes position h =
    let zeros = replicate (position - length (before ++ after)) 0 in
    (
      take (position - length before) (after ++ zeros)
          ++ (bytes ++ drop (position + length bytes) (before ++ after)),
      rw
          (
            append_assoc before after zeros,
            take-append_more before (after ++ zeros) position (position - length before)
                (omega arith),
            append_assoc,
          )
          refl,
    )
