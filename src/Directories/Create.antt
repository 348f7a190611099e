-- ===== src/Directories/Create.antt =====
-- What `CreateCStoreDatabaseDirectory` (cstore_fdw.c) leaves.
use cstore_fdw.Prelude.{◌≡◌, refl, ◌≢◌, inl, inr, Bool-cases}
use cstore_fdw.Result.{Result, ok, err}
use cstore_fdw.CString.{Text}
use cstore_fdw.Directories.{
  Status, FileSystem, FileSystemLaws, directory, other_file, enoent, other_error, status_result,
  directory_exists, create_directory, create_if_missing, ensure_directory,
  create_cstore_database_directory, and_then,
}

module _ (fs : FileSystem) (laws : FileSystemLaws fs) where
  open fs use {State, stat, mkdir}

  -- What is left of a directory that is made sure of.
  abbrev Ensured : Text → State → Result (Unit {0}) × State → Type 0
  Ensured path s (ok u, s') =
      (stat path s' ≡ directory)
      × ((other : Text) → stat other s ≡ directory → stat other s' ≡ directory)
  Ensured path s (err e, s') = (stat path s ≢ directory)

  create_directory-Ensured :
      (path : Text) (s : State) → stat path s ≡ enoent → Ensured path s (create_directory fs path s)
  unfolding create_directory
  create_directory-Ensured path s e = elim (Bool-cases (mkdir path s).0) [
    | inl made ↦ rw made (laws.mkdir-stat path s made, λ other h. laws.mkdir_keeps path other s h)
    | inr failed ↦ rw failed (λ h. cc)
  ]

  create_if_missing-Ensured :
      (path : Text) (s : State) (t : Status)
      → stat path s ≡ t
      → Ensured path s (create_if_missing fs (status_result fs t) path s)
  create_if_missing-Ensured path s directory e = (e, λ other h. h)
  create_if_missing-Ensured path s other_file e = λ h. cc
  create_if_missing-Ensured path s enoent e = create_directory-Ensured path s e
  create_if_missing-Ensured path s other_error e = λ h. cc

  ensure_directory-Ensured : (path : Text) (s : State) → Ensured path s (ensure_directory fs path s)
  unfolding ensure_directory directory_exists
  ensure_directory-Ensured path s = create_if_missing-Ensured path s (stat path s) refl

  ensure_again :
      (path : Text) (s : State) → stat path s ≡ directory → ensure_directory fs path s ≡ (ok tt, s)
  unfolding ensure_directory directory_exists
  ensure_again path s e = rw e refl

  pub create_again :
      (cstore database : Text) (s : State)
      → stat cstore s ≡ directory
      → stat database s ≡ directory
      → create_cstore_database_directory fs cstore database s ≡ (ok tt, s)
  unfolding create_cstore_database_directory
  create_again cstore database s e f = rw (ensure_again cstore s e, ensure_again database s f) refl

  -- On success both directories are there, and a second call changes nothing; an error means that
  -- one of them was not there.
  abbrev pub Created : Text → Text → State → Result (Unit {0}) × State → Type 0
  Created cstore database s (ok u, s') =
      (stat cstore s' ≡ directory)
      × (stat database s' ≡ directory)
      × (create_cstore_database_directory fs cstore database s' ≡ (ok tt, s'))
  Created cstore database s (err e, s') =
      ¬ ((stat cstore s ≡ directory) × (stat database s ≡ directory))

  second-Created :
      (cstore database : Text) (s s1 : State) (r : Result (Unit {0}) × State)
      → stat cstore s1 ≡ directory
      → ((other : Text) → stat other s ≡ directory → stat other s1 ≡ directory)
      → Ensured database s1 r
      → Created cstore database s r
  second-Created cstore database s s1 (ok u, s2) e keeps (f, keeps') =
      (keeps' cstore e, f, create_again cstore database s2 (keeps' cstore e) f)
  second-Created cstore database s s1 (err x, s2) e keeps h = λ (a, b). h (keeps database b)

  first-Created :
      (cstore database : Text) (s : State) (r : Result (Unit {0}) × State)
      → Ensured cstore s r
      → Created cstore database s (and_then fs r (ensure_directory fs database))
  first-Created cstore database s (ok u, s1) (e, keeps) =
      second-Created cstore database s s1 (ensure_directory fs database s1) e keeps
        (ensure_directory-Ensured database s1)
  first-Created cstore database s (err x, s1) h = λ (a, b). h a

  -- Creating the directory of a database either leaves both it and the directory of the extension,
  -- and would then change nothing if it ran again, or fails where one of them was not there before.
  pub create_cstore_database_directory-Created :
      (cstore database : Text) (s : State)
      → Created cstore database s (create_cstore_database_directory fs cstore database s)
  unfolding create_cstore_database_directory
  create_cstore_database_directory-Created cstore database s =
      first-Created cstore database s (ensure_directory fs cstore s)
        (ensure_directory-Ensured cstore s)
