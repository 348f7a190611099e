-- ===== src/FooterFile/Write/Effects.antt =====
-- What writing a footer does to the files: on success, and wherever it fails.
use cstore_fdw.Prelude.{
  ◌-◌, ℕ, suc, ◌+◌, ◌%◌, ◌^◌, ◌≤◌, ◌≡◌, refl, ◌∙◌, some, List, [], ◌∷◌, ◌++◌, append-nil,
  append_assoc, arith, length,
}
use cstore_fdw.Result.{Result, ok, err}
use cstore_fdw.Disk.{Disk, Io, continue, ◌>>◌}
use cstore_fdw.Protobuf.{Protobuf}
use cstore_fdw.Types.{TableFooter}
use cstore_fdw.FooterFile.Write.{
  open_temp, write_to_temp, sync_and_close_file, footer_bytes, postscript_bytes, write_footer,
}

-- The data file and the footer file are as they were.
pub record SameFiles (d d' : Disk) : Type 0 where
  pub same_data : d'.data_file ≡ d.data_file
  pub same_footer : d'.footer_file ≡ d.footer_file

-- The temporary file has this content, and some credit is left.
pub record Holds (d : Disk) (content : List ℕ) (credit : ℕ) : Type 0 where
  pub temp : d.temp_footer_file ≡ some content
  pub left : credit ≤ d.credit

-- An action on the temporary file alone, whether it succeeds or fails.
abbrev pub OnTemp : {A : Type 0} → Io A → Type 0
OnTemp m = (d : Disk) → SameFiles d (m d).1

OnTemp-open : OnTemp open_temp
unfolding open_temp
OnTemp-open d = ground arith

OnTemp-write : (bytes : List ℕ) → OnTemp (write_to_temp bytes)
unfolding write_to_temp
OnTemp-write [] d = ground arith
OnTemp-write (b ∷ bytes) d = ground arith

OnTemp-sync : OnTemp sync_and_close_file
unfolding sync_and_close_file
OnTemp-sync d = ground arith

OnTemp-bind : (m : Io (Unit {0})) (n : Io (Unit {0})) → OnTemp m → OnTemp n → OnTemp (m >> n)
OnTemp-bind m n hm hn d = after (m d).0 (m d).1 (hm d)
  where
    after :
        (r : Result (Unit {0})) (d' : Disk)
        → SameFiles d d'
        → SameFiles d (continue r (λ _. n) d').1
    after (ok _) d' h = record {
      same_data = (hn d').same_data ∙ h.same_data;
      same_footer = (hn d').same_footer ∙ h.same_footer;
    }
    after (err e) d' h = h

write_to_temp-Holds :
    (bytes content : List ℕ) (d : Disk) (credit : ℕ)
    → Holds d content (suc credit)
    → (d' : Disk) × (write_to_temp bytes d ≡ (ok tt, d')) × Holds d' (content ++ bytes) credit
unfolding write_to_temp
write_to_temp-Holds [] content d credit h = (d, refl, ground (arith, append-nil content))
write_to_temp-Holds (b ∷ bytes) content d credit h = (
  record d { temp_footer_file = some (content ++ b ∷ bytes); credit = d.credit - 1 },
  ground arith,
  ground arith,
)

open_temp-Holds :
    (d : Disk) (credit : ℕ)
    → suc credit ≤ d.credit
    → (d' : Disk) × (open_temp d ≡ (ok tt, d')) × Holds d' [] credit
unfolding open_temp
open_temp-Holds d credit h =
    (record d { temp_footer_file = some []; credit = d.credit - 1 }, ground arith, ground arith)

sync_and_close_file-Holds :
    (content : List ℕ) (d : Disk) (credit : ℕ)
    → Holds d content (suc credit)
    → (d' : Disk) × (sync_and_close_file d ≡ (ok tt, d')) × Holds d' content credit
unfolding sync_and_close_file
sync_and_close_file-Holds content d credit h =
    (record d { credit = d.credit - 1 }, ground arith, ground arith)

module _ (protobuf : Protobuf) (f : TableFooter) where
  abbrev a : List ℕ
  a = footer_bytes protobuf f

  abbrev b : List ℕ
  b = postscript_bytes protobuf f

  abbrev last_byte : List ℕ
  last_byte = length b % 2 ^ 8 ∷ []

  -- Writing a footer touches neither the data file nor the footer file, wherever it fails.
  pub OnTemp-write_footer : OnTemp (write_footer protobuf f)
  unfolding write_footer
  OnTemp-write_footer = OnTemp-bind open_temp _ OnTemp-open (
      OnTemp-bind (write_to_temp a) _ (OnTemp-write a) (
        OnTemp-bind (write_to_temp b) _ (OnTemp-write b)
          (OnTemp-bind (write_to_temp last_byte) _ (OnTemp-write last_byte) OnTemp-sync)))

  -- With credit for its five calls it succeeds, and the temporary file holds the three parts.
  pub write_footer-Holds :
      (d : Disk) (credit : ℕ)
      → credit + 5 ≤ d.credit
      → (d' : Disk) × (write_footer protobuf f d ≡ (ok tt, d'))
        × Holds d' (a ++ (b ++ last_byte)) credit
  unfolding write_footer
  write_footer-Holds d credit h =
      let (d1, e1, h1) = open_temp-Holds d (credit + 4) (omega arith) in
      let (d2, e2, h2) =
        write_to_temp-Holds a [] d1 (credit + 3)
          (record { temp = h1.temp; left = omega (arith, h1.left) }) in
      let (d3, e3, h3) =
        write_to_temp-Holds b a d2 (credit + 2)
          (record { temp = h2.temp; left = omega (arith, h2.left) }) in
      let (d4, e4, h4) =
        write_to_temp-Holds last_byte (a ++ b) d3 (credit + 1)
          (record { temp = h3.temp; left = omega (arith, h3.left) }) in
      let (d5, e5, h5) =
        sync_and_close_file-Holds ((a ++ b) ++ last_byte) d4 credit
          (record { temp = h4.temp; left = omega (arith, h4.left) }) in
      (d5, rw (e1, e2, e3, e4) e5, rw (← append_assoc) h5)
