-- ===== src/Run/Found.antt =====
-- internal/backup/run.go: the mirrors on disk that `staleMirrors` cannot miss.
use backup_git_repos.Base.{nat_eq, list_eq}
use backup_git_repos.FilePath.{FilePath}
use backup_git_repos.World.{World}
use backup_git_repos.Repo.{Repo}
