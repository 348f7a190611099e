-- ===== src/Tests/Directories.antt =====
-- The theorem on the directories of a database, on a file system of nested directories.
use cstore_fdw.Prelude.{ℕ, ◌≤◌, ◌≡◌, true, [], ◌∷◌, arith, max, leb, length, if◌then◌else◌}
use cstore_fdw.Directories.{
  FileSystem, FileSystemLaws, directory, enoent, create_cstore_database_directory,
}
use cstore_fdw.Directories.Create.{Created, create_cstore_database_directory-Created}

-- The state is the length of the longest path, and all paths up to that length exist.
abbrev pub file_system : FileSystem
file_system = record {
  State = ℕ;
  stat = λ path s. if leb (length path) s then directory else enoent;
  mkdir = λ path s. (true, max s (length path));
  rmtree = λ path s. (true, length path);
}

stat_exists : (n s : ℕ) → n ≤ s → (if leb n s then directory else enoent) ≡ directory
stat_exists n s h = ground arith

exists_stat : (n s : ℕ) → (if leb n s then directory else enoent) ≡ directory → n ≤ s
exists_stat n s h = ground arith

pub file_system_laws : FileSystemLaws file_system
file_system_laws = record {
  mkdir-stat = λ path s made. stat_exists (length path) (max s (length path)) (omega arith);
  mkdir_keeps = λ path other s h.
      stat_exists (length other) (max s (length path))
        (omega (arith, exists_stat (length other) s h));
}

directories_example :
    Created file_system file_system_laws
      (1 ∷ [])
      (1 ∷ 2 ∷ [])
      0
      (create_cstore_database_directory file_system (1 ∷ []) (1 ∷ 2 ∷ []) 0)
directories_example =
    create_cstore_database_directory-Created file_system file_system_laws (1 ∷ []) (1 ∷ 2 ∷ []) 0
