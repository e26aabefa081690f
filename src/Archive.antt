-- ===== src/Archive.antt =====
-- internal/backup/archive.go: a mirror written out as a gzipped tar.
pub mod Atomic
pub mod Near
pub mod Deterministic
pub mod Same
use backup_git_repos.Base.{
  Text, text, ℕ, List, [], ◌∷◌, ◌++◌, Option, none, some, Bool, false, join_with, split_on, sort,
  if◌then◌else◌,
}
use backup_git_repos.FilePath.{FilePath, base, dir_of, with_suffix}
use backup_git_repos.Fs.{Node, file, link, dir, Entries, end, entry, get}
use backup_git_repos.Tar.{TypeFlag, reg_type, dir_type, symlink_type, Header, TarEntry}
use backup_git_repos.Error.{os_error, not_exist, list_op, read_op, stat_op, Result, ok, err, wrap}
use backup_git_repos.Error.Steps
use backup_git_repos.World.{
  World, Env, Io, wrapping, settle, ◌>>=◌, ◌>>◌, write_file, rename, remove, mkdir_all,
}

-- The fixed ModTime of every entry.
abbrev pub epoch : ℕ
epoch = 0

module _ (env : Env) (root : FilePath) where
  -- `fs.WalkDir` below the root: the path of each entry, relative to the root.
  unfoldable pub walk_paths : FilePath → Entries → Result (List Text)
  walk_paths rel end = ok []
  walk_paths rel (entry name (dir es) rest) =
      let path = rel ++ name ∷ [] in
      let below = walk_paths path es in
      let others = walk_paths rel rest in
      if env.refuses list_op (root ++ path)
      then err (os_error list_op (root ++ path))
      else Steps.◌>>=◌ below
          λ inside. Steps.◌>>=◌ others λ more. ok (join_with b'/' path ∷ (inside ++ more))
  walk_paths rel (entry name n rest) =
      let others = walk_paths rel rest in
      Steps.◌>>=◌ others λ more. ok (join_with b'/' (rel ++ name ∷ []) ∷ more)

  unfoldable pub sorted_paths : Entries → Result (List Text)
  sorted_paths es =
      if env.refuses list_op root
      then err (wrap (text "walk") (os_error list_op root))
      else elim (walk_paths [] es) [
        | ok paths ↦ ok (sort paths)
        | err e ↦ err (wrap (text "walk") e)
      ]

  -- The header of `tar.FileInfoHeader`, its times and owners cleared.
  unfoldable pub header_for : TypeFlag → Text → Text → FilePath → Header
  header_for flag name link_name path = record {
    type_flag = flag;
    name = name;
    link_name = link_name;
    info = record (env.file_info path) {
      mod_time = epoch;
      access_time = none;
      change_time = none;
      uid = 0;
      gid = 0;
      uname = [];
      gname = [];
    };
  }

  unfoldable pub entry_of : Text → FilePath → Node → TarEntry
  entry_of name path (dir es) = record {
    header = header_for dir_type (name ++ text "/") [] path;
    content = [];
  }
  entry_of name path (link target) = record {
    header = header_for symlink_type name target path;
    content = [];
  }
  entry_of name path (file content) = record {
    header = header_for reg_type name [] path;
    content = content;
  }

  -- Reading a link and opening a file may fail; a directory is not read.
  unfoldable pub unreadable : FilePath → Node → Bool
  unreadable path (dir es) = false
  unreadable path n = env.refuses read_op path

  unfoldable pub write_entry : Option Node → Text → Text → Result TarEntry
  write_entry tree prefix p =
      let path = root ++ split_on b'/' p in
      if env.refuses stat_op path
      then err (wrap (text "stat") (os_error stat_op path))
      else elim (get (split_on b'/' p) tree) [
        | none ↦ err (wrap (text "stat") (not_exist path))
        | some n ↦
            if unreadable path n
            then err (wrap (text "open") (os_error read_op path))
            else ok (entry_of (prefix ++ text "/" ++ p) path n)
      ]

  unfoldable pub write_entries : Option Node → Text → List Text → Result (List TarEntry)
  write_entries tree prefix [] = ok []
  write_entries tree prefix (p ∷ paths) =
      let rest = write_entries tree prefix paths in
      Steps.◌>>=◌ (write_entry tree prefix p) λ here. Steps.◌>>=◌ rest λ more. ok (here ∷ more)

-- The entry of the top-level directory.
unfoldable pub prefix_entry : Text → TarEntry
prefix_entry prefix = record {
  header = record {
    type_flag = dir_type;
    name = prefix ++ text "/";
    link_name = [];
    info = record {
      mode = 0o755;
      mod_time = epoch;
      access_time = none;
      change_time = none;
      uid = 0;
      gid = 0;
      uname = [];
      gname = [];
    };
  };
  content = [];
}

-- `os.OpenRoot`
unfoldable pub open_root : FilePath → Io Entries
open_root path w = elim (get path w.fs) [
  | none ↦ (err (not_exist path), w)
  | some (dir es) ↦
      if w.env.refuses read_op path then (err (os_error read_op path), w) else (ok es, w)
  | some n ↦ (err (os_error read_op path), w)
]

-- A result that only the environment enters.
abbrev reading {ℓ} : {A : Type ℓ} → (Env → Result A) → Io A
reading f w = (f w.env, w)

-- The last of the three writers' `Close`.
unfoldable pub close_archive : FilePath → FilePath → List TarEntry → Io (Unit {0})
close_archive path out entries w =
    write_file out (w.env.encode (prefix_entry (base path) ∷ entries)) w

-- The file is created before the entries are read; what a failure leaves in it is empty here.
unfoldable pub write_archive : FilePath → FilePath → Io (Unit {0})
write_archive path out = do
  es ← wrapping (text "open root") (open_root path)
  paths ← reading (λ env. sorted_paths env path es)
  wrapping (text "create") (write_file out [])
  entries ← reading (λ env. write_entries env path (some (dir es)) (base path) paths)
  wrapping (text "close") (close_archive path out entries)

-- `_ = f()`
abbrev pub ignoring {ℓ} : {A : Type ℓ} → Io A → World → World
ignoring m w = (m w).1

unfoldable pub archive : FilePath → FilePath → Io (Unit {0})
archive path out w =
    let tmp = with_suffix out (text ".tmp") in
    let (written, w') = write_archive path tmp w in
    settle written (λ e. (err (wrap (text "archive") e), ignoring (remove tmp) w'))
      (λ _. wrapping (text "archive") (rename tmp out) w')

-- `archiveRepo` of run.go
unfoldable pub archive_repo : FilePath → FilePath → Io (Unit {0})
archive_repo path out = do wrapping (text "create") (mkdir_all (dir_of out)); archive path out
