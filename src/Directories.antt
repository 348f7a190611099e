-- ===== src/Directories.antt =====
-- The directories of a database (cstore_fdw.c): `CreateCStoreDatabaseDirectory` and
-- `RemoveCStoreDatabaseDirectory`. The system calls are the parameter `FileSystem`; a directory is
-- given by its path.
pub mod Create
use cstore_fdw.Prelude.{◌≡◌, Bool, true, false, if◌then◌else◌}
use cstore_fdw.Result.{Result, ok, err, not_a_directory, could_not_create, could_not_stat}
use cstore_fdw.CString.{Text}

-- What `stat` says of a path
pub data Status : Type 0 where
  directory other_file enoent other_error : Status

-- `mkdir` and `rmtree` say whether they succeeded.
pub record FileSystem : Type 1 where
  pub State : Type 0
  pub stat : Text → State → Status
  pub mkdir : Text → State → Bool × State
  pub rmtree : Text → State → Bool × State

-- After `mkdir` succeeded the path is a directory, and what was a directory still is.
pub record FileSystemLaws (fs : FileSystem) : Type 0 where
  pub mkdir-stat :
      (path : Text) (s : fs.State)
      → (fs.mkdir path s).0 ≡ true
      → fs.stat path (fs.mkdir path s).1 ≡ directory
  pub mkdir_keeps :
      (path other : Text) (s : fs.State)
      → fs.stat other s ≡ directory
      → fs.stat other (fs.mkdir path s).1 ≡ directory

module _ (fs : FileSystem) where
  open fs use {State, stat, mkdir, rmtree}

  abbrev pub status_result : Status → Result Bool
  status_result directory = ok true
  status_result other_file = err not_a_directory
  status_result enoent = ok false
  status_result other_error = err could_not_stat

  unfoldable pub directory_exists : Text → State → Result Bool
  directory_exists path s = status_result (stat path s)

  unfoldable pub create_directory : Text → State → Result (Unit {0}) × State
  create_directory path s =
      let (made, s') = mkdir path s in (if made then ok tt else err could_not_create, s')

  -- `if (!DirectoryExists(path)) CreateDirectory(path)`
  abbrev pub create_if_missing : Result Bool → Text → State → Result (Unit {0}) × State
  create_if_missing (err e) path s = (err e, s)
  create_if_missing (ok true) path s = (ok tt, s)
  create_if_missing (ok false) path s = create_directory path s

  unfoldable pub ensure_directory : Text → State → Result (Unit {0}) × State
  ensure_directory path s = create_if_missing (directory_exists path s) path s

  abbrev pub and_then :
      Result (Unit {0}) × State → (State → Result (Unit {0}) × State) → Result (Unit {0}) × State
  and_then (err e, s) k = (err e, s)
  and_then (ok u, s) k = k s

  -- The directory of the extension, then that of the database in it.
  unfoldable pub create_cstore_database_directory : Text → Text → State → Result (Unit {0}) × State
  create_cstore_database_directory cstore database s =
      and_then (ensure_directory cstore s) (ensure_directory database)

  abbrev pub remove_if_there : Result Bool → Text → State → Result (Unit {0}) × State
  remove_if_there (err e) path s = (err e, s)
  remove_if_there (ok true) path s = (ok tt, (rmtree path s).1)
  remove_if_there (ok false) path s = (ok tt, s)

  unfoldable pub remove_cstore_database_directory : Text → State → Result (Unit {0}) × State
  remove_cstore_database_directory path s = remove_if_there (directory_exists path s) path s
