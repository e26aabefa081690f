-- ===== src/Fs.antt =====
-- The file system under the calls of Go's package os: a tree of directories, files and symbolic
-- links. A link is a leaf: no path is resolved through one.
pub mod Lookup
pub mod Update
use backup_git_repos.Base.{Text, List, [], ◌∷◌, Option, none, some, Bool, true, false, ◌==◌}
use backup_git_repos.Base.{nat_eq, list_eq, if◌then◌else◌}
use backup_git_repos.FilePath.{FilePath}

mutual
  pub data Node : Type 0 where
    file : Text → Node
    link : Text → Node
    dir : Entries → Node

  -- A directory's entries, in the order in which they are listed.
  pub data Entries : Type 0 where
    end : Entries
    entry : Text → Node → Entries → Entries

-- What stands at a path, if anything does.
abbrev pub Fs : Type 0
Fs = Option Node

abbrev pub is_dir : Node → Bool
is_dir (dir _) = true
is_dir _ = false

unfoldable pub find : Text → Entries → Option Node
find name end = none
find name (entry k n es) = if k == name then some n else find name es

unfoldable pub remove_entry : Text → Entries → Entries
remove_entry name end = end
remove_entry name (entry k n es) =
    let rest = remove_entry name es in if k == name then rest else entry k n rest

-- A new entry stands last; an old one keeps its place.
unfoldable pub put_entry : Text → Node → Entries → Entries
put_entry name n end = entry name n end
put_entry name n (entry k m es) =
    if k == name then entry k n es else entry k m (put_entry name n es)

unfoldable pub set_entry : Text → Option Node → Entries → Entries
unfolding put_entry remove_entry
set_entry name none es = remove_entry name es
set_entry name (some n) es = put_entry name n es

-- The node at a path below a root.
unfoldable pub get : FilePath → Fs → Option Node
unfolding find
get [] root = root
get (name ∷ path) (some (dir es)) = get path (find name es)
get (name ∷ path) _ = none

-- The tree with the node at a path changed; where the path's parent is no directory, nothing is.
unfoldable pub alter : FilePath → (Option Node → Option Node) → Fs → Fs
unfolding find set_entry
alter [] f root = f root
alter (name ∷ path) f (some (dir es)) = some (dir (set_entry name (alter path f (find name es)) es))
alter (name ∷ path) f root = root

unfoldable pub within : Text → Entries → Option Fs → Option Fs
within name es none = none
within name es (some child) = some (some (dir (set_entry name child es)))

-- `os.MkdirAll`: each missing directory of the path is made. `none` where a file is in the way.
unfoldable pub make_dirs : FilePath → Fs → Option Fs
unfolding find set_entry within
make_dirs [] none = some (some (dir end))
make_dirs [] (some (dir es)) = some (some (dir es))
make_dirs [] (some n) = none
make_dirs (name ∷ path) none = within name end (make_dirs path none)
make_dirs (name ∷ path) (some (dir es)) = within name es (make_dirs path (find name es))
make_dirs (name ∷ path) (some n) = none
