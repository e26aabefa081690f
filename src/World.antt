-- ===== src/World.antt =====
-- The process that the program runs in, and the calls of package os on it. What can fail is up to
-- `refuses`: any call may be refused on any path.
pub mod Keeps
pub mod Reads
pub mod Near
use backup_git_repos.Base.{
  Text, String, ℕ, List, [], ◌∷◌, ◌++◌, Option, none, some, Bool, true, false,
}
use backup_git_repos.Base.{◌&&◌, if◌then◌else◌}
use backup_git_repos.FilePath.{FilePath, dir_of}
use backup_git_repos.Fs.{Node, file, dir, end, entry, Fs, find, get, alter, make_dirs}
use backup_git_repos.Tar.{FileInfo, TarEntry}
use backup_git_repos.Error.{Op, stat_op, mkdir_op, temp_op, remove_op, rename_op, read_op, write_op}
use backup_git_repos.Error.{Err, os_error, not_exist, Result, ok, err, wrap}

-- What surrounds the process and does not change while it runs.
pub record Env : Type 0 where
  -- The system refuses this call on this path.
  pub refuses : Op → FilePath → Bool
  -- The name that `os.MkdirTemp` makes up.
  pub temp_name : FilePath
  -- `os.UserHomeDir`, `os.UserConfigDir`
  pub home : Option FilePath
  pub config_home : Option FilePath
  -- `os.Environ`
  pub variables : List (Text × Text)
  -- The attributes of the file at a path.
  pub file_info : FilePath → FileInfo
  -- The bytes that a tar writer over a gzip writer makes of entries.
  pub encode : List TarEntry → Text
  -- The directory that a relative path starts from.
  pub working_dir : FilePath
  -- What `sh -c` prints for a command, unless it fails.
  pub shell : Text → Option Text
  -- `exec.LookPath`
  pub look_path : Text → Option FilePath
  -- `runtime.GOMAXPROCS(0)`
  pub processors : ℕ

pub data Level : Type 0 where
  debug info warn error : Level

-- A line of the log: its level, its message and the path that it names.
abbrev pub LogLine : Type 0
LogLine = Level × String × Text

-- A line that the command prints: a text, or the counts of a summary behind their label.
pub data Line : Type 0 where
  line : Text → Line
  summary : Text → List (String × ℕ) → Line

pub record World : Type 0 where
  pub env : Env
  pub fs : Fs
  pub log : List LogLine
  pub out : List Line

-- A call that reads and changes the world, and may fail. What was done before a failure stays.
abbrev pub Io {ℓ} : Type ℓ → Type ℓ
Io A = World → Result A × World

module _ {ℓ} {A : Type ℓ} where
  abbrev pub pure : A → Io A
  pure a w = (ok a, w)

  abbrev pub fail : Err → Io A
  fail e w = (err e, w)

  abbrev pub wrap_result : Text → Result A → Result A
  wrap_result context (ok a) = ok a
  wrap_result context (err e) = err (wrap context e)

  -- `fmt.Errorf("context: %w", err)` on the error of a call.
  abbrev pub wrapping : Text → Io A → Io A
  wrapping context m w = let (r, w') = m w in (wrap_result context r, w')

module _ {ℓ} {A B : Type ℓ} where
  -- A call whose error and value are handled apart.
  abbrev pub settle : Result A → (Err → B) → (A → B) → B
  settle r failed done = elim r [ ok a ↦ done a | err e ↦ failed e ]

module _ {ℓ} {A : Type ℓ} {B : Type ℓ} where
  infixl 5 ◌>>=◌ ◌>>◌
  abbrev pub ◌>>=◌ : Io A → (A → Io B) → Io B
  ◌>>=◌ m f w = let (r, w') = m w in settle r (λ e. (err e, w')) (λ a. f a w')

  abbrev pub ◌>>◌ : Io A → Io B → Io B
  m >> n = m >>= λ _. n

unfoldable pub log_line : Level → String → Text → World → World
log_line level message path w = record w { log = w.log ++ (level, message, path) ∷ [] }

-- `cmd.Println`
unfoldable pub print_line : Line → World → World
print_line l w = record w { out = w.out ++ l ∷ [] }

-- A file in the place of one of the path's directories (ENOTDIR).
unfoldable pub blocked : FilePath → Fs → Bool
blocked [] root = false
blocked (name ∷ path) none = false
blocked (name ∷ path) (some (dir es)) = blocked path (find name es)
blocked (name ∷ path) (some n) = true

-- A call on a path, unless the system refuses it.
abbrev asking {ℓ} : {A : Type ℓ} → Op → FilePath → Io A → Io A
asking op path m w = if w.env.refuses op path then (err (os_error op path), w) else m w

unfoldable pub missing : Op → FilePath → Fs → Err
missing op path root = if blocked path root then os_error op path else not_exist path

-- `os.Stat`
unfoldable pub stat : FilePath → Io Node
stat path =
    asking stat_op path
      λ w. elim (get path w.fs) [ none ↦ (err (missing stat_op path w.fs), w) | some n ↦ (ok n, w) ]

-- `os.MkdirAll`
unfoldable pub mkdir_all : FilePath → Io (Unit {0})
mkdir_all path = asking mkdir_op path λ w. elim (make_dirs path w.fs) [
  | none ↦ (err (os_error mkdir_op path), w)
  | some fs' ↦ (ok tt, record w { fs = fs' })
]

-- `os.RemoveAll`: a path that does not exist is no error.
unfoldable pub remove_all : FilePath → Io (Unit {0})
remove_all path = asking remove_op path λ w. (ok tt, record w { fs = alter path (λ _. none) w.fs })

-- `os.Remove` takes a file, a link or an empty directory.
unfoldable pub removable : Node → Bool
removable (dir (entry _ _ _)) = false
removable n = true

unfoldable pub remove : FilePath → Io (Unit {0})
remove path = asking remove_op path λ w. elim (get path w.fs) [
  | none ↦ (err (missing remove_op path w.fs), w)
  | some n ↦
      if removable n
      then (ok tt, record w { fs = alter path (λ _. none) w.fs })
      else (err (os_error remove_op path), w)
]

-- A file written from its beginning: `os.WriteFile`, `os.Create`. Its directory must exist.
unfoldable pub writable : FilePath → Fs → Bool
writable path root = elim (get (dir_of path) root) [
  | some (dir es) ↦ elim (get path root) [ some (dir es') ↦ false | _ ↦ true ]
  | _ ↦ false
]

unfoldable pub write_file : FilePath → Text → Io (Unit {0})
write_file path content = asking write_op path λ w.
    if writable path w.fs
    then (ok tt, record w { fs = alter path (λ _. some (file content)) w.fs })
    else (err (os_error write_op path), w)

-- `os.ReadFile`
unfoldable pub read_file : FilePath → Io Text
read_file path = asking read_op path λ w. elim (get path w.fs) [
  | none ↦ (err (missing read_op path w.fs), w)
  | some (file content) ↦ (ok content, w)
  | some n ↦ (err (os_error read_op path), w)
]

-- `os.Rename`: a directory goes to where nothing stands or an empty directory does, anything else
-- to where no directory stands.
unfoldable pub replaces : Node → Option Node → Bool
replaces (dir es) none = true
replaces (dir es) (some (dir end)) = true
replaces (dir es) _ = false
replaces n (some (dir es)) = false
replaces n _ = true

abbrev move : FilePath → FilePath → Node → Fs → Fs
move old new n root = alter new (λ _. some n) (alter old (λ _. none) root)

-- Whether a path's directory exists.
unfoldable pub has_dir : FilePath → Fs → Bool
has_dir path root = elim (get (dir_of path) root) [ some (dir es) ↦ true | _ ↦ false ]

-- `os.MkdirTemp`: a new directory, at the random name that `temp_name` stands for. A name that is
-- taken is never given.
unfoldable pub mkdir_temp : Io FilePath
mkdir_temp w =
    let name = w.env.temp_name in
    if w.env.refuses temp_op name then (err (os_error temp_op name), w) else elim (get name w.fs) [
      | some n ↦ (err (os_error temp_op name), w)
      | none ↦
          if has_dir name w.fs
          then (ok name, record w { fs = alter name (λ _. some (dir end)) w.fs })
          else (err (os_error temp_op name), w)
    ]

unfoldable pub rename : FilePath → FilePath → Io (Unit {0})
rename old new = asking rename_op new λ w. elim (get old w.fs) [
  | none ↦ (err (missing rename_op old w.fs), w)
  | some n ↦
      if has_dir new w.fs && replaces n (get new w.fs)
      then (ok tt, record w { fs = move old new n w.fs })
      else (err (os_error rename_op new), w)
]
