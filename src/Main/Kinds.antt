-- ===== src/Main/Kinds.antt =====
-- The kinds of forges that newRunner of cmd/backup-git-repos/main.go and LoadConfig of
-- internal/backup/config.go know.
use backup_git_repos.Base.{false, list_eq, nat_eq, ◌↔◌, ◌≡◌, arith}
use backup_git_repos.Error.{err, wrap, unknown_kind}
use backup_git_repos.Config.{ForgeConfig, known_forge_kind}
use backup_git_repos.Forge.Forgejo
use backup_git_repos.Forge.GitHub
use backup_git_repos.Forge.GitLab
use backup_git_repos.Main.{Adapters, new_runner}

-- The kind of a forge is refused exactly when LoadConfig refuses it, and never because of its URL.
new_runner_iff_known :
    (a : Adapters) (fc : ForgeConfig)
    → (new_runner a fc ≡ err (wrap fc.name (unknown_kind fc.kind)))
      ↔ (known_forge_kind fc.kind ≡ false)
unfolding new_runner known_forge_kind Forgejo.new_client GitHub.new_client GitLab.new_client
new_runner_iff_known a fc = ground arith
