-- ===== src/Disk.antt =====
-- The files of a table, and the calls of stdio and of the file system on them: `ReadFromFile` and
-- `FILESize` (cstore_reader.c), `WriteToFile` and `SyncAndCloseFile` (cstore_writer.c).
--
-- `credit` counts the calls that change a file and still succeed: the next one fails, as on a full
-- disk, and leaves the files as they are. Reads meet no device errors.
pub mod Writes
pub mod Triples
use cstore_fdw.Prelude.{
  ℕ, zero, suc, ◌+◌, ◌-◌, ◌*◌, ◌%◌, ◌^◌, Bool, true, false, Option, none, some, List, [], ◌∷◌, ◌++◌,
  ltb, leb, ◌==◌, if◌then◌else◌, length, take, drop, replicate,
}
use cstore_fdw.Result.{
  Error, Result, ok, err, could_not_seek, not_enough_data, could_not_write, could_not_sync,
  string_too_large, require,
}
use cstore_fdw.StringInfo.{max_alloc_size}

pub record Disk : Type 0 where
  pub data_file : Option (List ℕ)
  pub footer_file : Option (List ℕ)
  pub temp_footer_file : Option (List ℕ)
  pub credit : ℕ

-- What was written before an error stays written.
abbrev pub Io : Type 0 → Type 0
Io A = Disk → Result A × Disk

abbrev pub pure : {A : Type 0} → A → Io A
pure a d = (ok a, d)

abbrev pub lift : {A : Type 0} → Result A → Io A
lift r d = (r, d)

abbrev pub continue : {A B : Type 0} → Result A → (A → Io B) → Io B
continue (ok a) f d = f a d
continue (err e) f d = (err e, d)

infixl 5 ◌>>=◌ ◌>>◌
abbrev pub ◌>>=◌ : {A B : Type 0} → Io A → (A → Io B) → Io B
◌>>=◌ m f d = let (r, d') = m d in continue r f d'

abbrev pub ◌>>◌ : {B : Type 0} → Io (Unit {0}) → Io B → Io B
m >> n = m >>= λ _. n

-- A call that changes the files by `f`, or fails.
unfoldable pub call : Error → (Disk → Disk) → Io (Unit {0})
call e f d = go d.credit
  where
    go : ℕ → Result (Unit {0}) × Disk
    go zero = (err e, d)
    go (suc n) = (ok tt, record (f d) { credit = n })

-- A file after `fwrite` at a position: a gap before the position is filled with zeros.
unfoldable pub write_at : List ℕ → ℕ → List ℕ → List ℕ
write_at content position bytes =
    take position (content ++ replicate (position - length content) 0)
    ++ (bytes ++ drop (position + length bytes) content)

abbrev pub content_of : Option (List ℕ) → List ℕ
content_of none = []
content_of (some content) = content

-- `WriteToFile` to the data file, at the position of its handle
unfoldable pub write_to_file : ℕ → List ℕ → Io (Unit {0})
unfolding call write_at
write_to_file position [] d = (ok tt, d)
write_to_file position (b ∷ bytes) d =
    call could_not_write
      (λ d. record d { data_file = some (write_at (content_of d.data_file) position (b ∷ bytes)) })
      d

-- `ReadFromFile`: `offset` is a `uint64` that becomes an `off_t`, and `size` a `uint32`.
unfoldable pub read_from_file : List ℕ → ℕ → ℕ → Result (List ℕ)
read_from_file content offset size =
    let n = size % 2 ^ 32 in
    if leb max_alloc_size n
    then err string_too_large
    else if n == 0
    then ok []
    else if leb (2 ^ 63) offset
    then err could_not_seek
    else if leb (offset + n) (length content)
    then ok (take n (drop offset content))
    else err not_enough_data
