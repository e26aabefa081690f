-- ===== src/Metadata.antt =====
-- internal/backup/metadata.go: the kinds of metadata and where their files go.
pub mod Names
pub mod Write
use backup_git_repos.Base.{Text, text, List, [], ◌∷◌, ◌++◌, Bool, true, false, ◌==◌, ◌||◌, arith}
use backup_git_repos.Base.{nat_eq, list_eq, contains, if◌then◌else◌, ◌≡◌, ◌↔◌, Comparable}
use backup_git_repos.FilePath.{FilePath, join}
use backup_git_repos.Error.{Result, ok, err, bad_metadata_kind}
use backup_git_repos.Error.Steps.{◌>>=◌}

pub data MetadataKind : Type 0 where
  issues releases pull_requests : MetadataKind

-- The text of a kind: the values of the constants.
unfoldable pub kind_text : MetadataKind → Text
kind_text issues = text "issues"
kind_text releases = text "releases"
kind_text pull_requests = text "pull-requests"

abbrev pub kind_beq : MetadataKind → MetadataKind → Bool
kind_beq issues issues = true
kind_beq releases releases = true
kind_beq pull_requests pull_requests = true
kind_beq _ _ = false

pub kind_beq_iff : (a b : MetadataKind) → (kind_beq a b ≡ true) ↔ (a ≡ b)
kind_beq_iff a b = ground arith

instance abbrev pub kind_eq : Comparable MetadataKind
kind_eq = record { equal = kind_beq; equal_iff = kind_beq_iff }

-- The lookup in `knownMetadataKinds`.
unfoldable pub known_kind : Text → Result MetadataKind
known_kind v =
    if v == text "issues"
    then ok issues
    else if v == text "releases"
    then ok releases
    else if v == text "pull-requests"
    then ok pull_requests
    else err (bad_metadata_kind v)

unfoldable pub parse_metadata_kinds : List Text → Result (List MetadataKind)
parse_metadata_kinds [] = ok []
parse_metadata_kinds (v ∷ vals) =
    let rest = parse_metadata_kinds vals in do kind ← known_kind v; kinds ← rest; ok (kind ∷ kinds)

unfoldable pub wants_metadata : List MetadataKind → MetadataKind → Bool
wants_metadata kinds kind = contains kinds kind

unfoldable pub metadata_dir : FilePath → Text → FilePath
metadata_dir dest path = join dest (path ++ text ".metadata")

-- `strings.NewReplacer("/", "-", "\\", "-")`
unfoldable pub replace_separator : Text → Text
replace_separator [] = []
replace_separator (c ∷ s) = (if c == b'/' || c == 92 then b'-' else c) ∷ replace_separator s

unfoldable pub sanitize_name : Text → Text
sanitize_name name =
    let flat = replace_separator name in
    if flat == [] || flat == text "." || flat == text ".." then text "_" else flat

unfoldable pub release_dir : FilePath → Text → FilePath
release_dir dir tag_name = join dir (sanitize_name tag_name)
