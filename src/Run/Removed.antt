-- ===== src/Run/Removed.antt =====
-- internal/backup/run.go: what a whole run does to the mirror of a repository that the forge no
-- longer lists.
use backup_git_repos.Base.{nat_eq, list_eq}
use backup_git_repos.World.{World}
use backup_git_repos.Repo.{Repo}
