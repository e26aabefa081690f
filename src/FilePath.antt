-- ===== src/FilePath.antt =====
-- File paths: the calls of Go's path/filepath that internal/backup makes, on a system whose
-- separator is `/`. A path is its list of names from the root on, already cleaned, so a relative
-- path stands for what it names under the working directory.
pub mod Join
use backup_git_repos.Base.{Text, text, List, [], ◌∷◌, ◌++◌, reverse, Bool, ◌&&◌, not, ◌==◌, ◌||◌}
use backup_git_repos.Base.{nat_eq, list_eq, list_beq, if◌then◌else◌, split_on, append_last}

abbrev pub FilePath : Type 0
FilePath = List Text

-- What `..` leaves; the root has no parent.
unfoldable pub out_of : List Text → List Text
out_of [] = []
out_of (_ ∷ dir) = dir

-- One part of a text that `filepath.Clean` reads, on the names so far, the innermost first.
unfoldable pub enter : List Text → Text → List Text
unfolding list_beq out_of
enter dir part =
    if part == [] || part == text "."
    then dir
    else if part == text ".."
    then out_of dir
    else part ∷ dir

unfoldable pub walk_parts : List Text → List Text → List Text
unfolding enter
walk_parts dir [] = dir
walk_parts dir (part ∷ parts) = walk_parts (enter dir part) parts

-- `filepath.Join(dir, s)`
unfoldable pub join : FilePath → Text → FilePath
unfolding walk_parts split_on
join dir s = reverse (walk_parts (reverse dir) (split_on b'/' s))

-- `filepath.Base`; of the root it is the separator.
unfoldable pub base : FilePath → Text
base [] = text "/"
base (name ∷ []) = name
base (name ∷ next ∷ rest) = base (next ∷ rest)

-- `filepath.Dir`
unfoldable pub dir_of : FilePath → FilePath
dir_of [] = []
dir_of (name ∷ []) = []
dir_of (name ∷ next ∷ rest) = name ∷ dir_of (next ∷ rest)

-- `path + suffix`
unfoldable pub with_suffix : FilePath → Text → FilePath
unfolding append_last
with_suffix path suffix = append_last suffix path

-- The names that a directory can hold, of which a clean path consists.
unfoldable pub is_name : Text → Bool
unfolding list_beq
is_name s = not (s == [] || s == text "." || s == text "..")
