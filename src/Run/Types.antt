-- ===== src/Run/Types.antt =====
-- internal/backup/run.go: the options, interfaces and results of a run over one forge, and the paths
-- that a repository's mirror and archive land at.
use backup_git_repos.Base.{Text, ℕ, text, List, ◌++◌, Bool}
use backup_git_repos.FilePath.{FilePath, join}
use backup_git_repos.World.{Io}
use backup_git_repos.Repo.{Repo, State, ArchiveSelection}
use backup_git_repos.Metadata.{MetadataKind}

-- A clone URL and the Authorization header that goes with it.
pub record Remote : Type 0 where
  pub clone_url : Text
  pub auth_header : Text

pub record MetadataExporter : Type 0 where
  pub kind : MetadataKind
  pub export : Repo → FilePath → Io (Unit {0})

-- The interfaces that a forge's adapter fills.
pub record Runner : Type 0 where
  pub list_repos : State → Io (List Repo)
  pub sync : Remote → FilePath → Io (Unit {0})
  pub remote : Repo → Remote
  pub exporters : List MetadataExporter

pub record Options : Type 0 where
  pub dest : FilePath
  pub state : State
  pub archive : ArchiveSelection
  pub archive_dir : FilePath
  pub concurrency : ℕ
  pub prune_removed : Bool
  pub export_metadata : List MetadataKind

pub record RunResult : Type 0 where
  pub synced : ℕ
  pub skipped : ℕ
  pub failed : ℕ
  pub archived : ℕ
  pub pruned : ℕ
  pub metadata_exported : ℕ

pub record MirrorOutcome : Type 0 where
  pub synced : Bool
  pub archived : Bool
  pub failed : Bool
  pub metadata_exported : ℕ

unfoldable pub mirror_path : FilePath → Text → FilePath
mirror_path dest path = join dest (path ++ text ".git")

unfoldable pub archive_path : FilePath → Text → FilePath
archive_path archive_dir path = join archive_dir (path ++ text ".tar.gz")
