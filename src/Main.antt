-- ===== src/Main.antt =====
-- cmd/backup-git-repos/main.go: newRunner, which wires the adapter of a forge's kind into a runner.
pub mod Kinds
pub mod Reads
pub mod Confined
use backup_git_repos.Base.{Text, text, ℕ, List, Option, ◌==◌, list_eq, nat_eq, if◌then◌else◌}
use backup_git_repos.Error.{Err, Result, ok, err, wrap, unknown_kind}
use backup_git_repos.World.{World, Io, settle}
use backup_git_repos.Config.{ForgeConfig}
use backup_git_repos.Run.Types.{Runner}
use backup_git_repos.Mirror.{Tools, Mirror, sync}
use backup_git_repos.Metadata.Write.{Encoders}
use backup_git_repos.Forge.Exporters.{
  ForgejoDecoders, GitLabDecoders, GitHubDecoders, forgejo_exporters, gitlab_exporters,
  github_exporters,
}
use backup_git_repos.Forge.Http.{Web}
use backup_git_repos.Forge.Forgejo
use backup_git_repos.Forge.GitHub
use backup_git_repos.Forge.GitLab

-- What the adapters use of the world outside: net/http, git's processes, the JSON decoders
-- and encoders, and the fuel of the loops over pages.
pub record Adapters : Type 0 where
  pub web : Web
  pub tools : Tools
  pub forgejo_items : Text → Option (List Forgejo.Item)
  pub github_items : Text → Option (List GitHub.Item)
  pub gitlab_decoders : GitLab.Decoders
  pub encoders : Encoders
  pub forgejo_exports : ForgejoDecoders
  pub gitlab_exports : GitLabDecoders
  pub github_exports : GitHubDecoders
  pub fuel : ℕ

-- `backup.Mirror{}`: git and git-lfs from PATH.
abbrev pub default_mirror : Mirror
default_mirror = record { git_path = text ""; git_lfs_path = text "" }

unfoldable pub forgejo_runner : Adapters → ForgeConfig → Forgejo.Client → Runner
forgejo_runner a fc client =
    let skipping = record client { skip_mirrors = fc.skip_mirrors } in
    record {
      list_repos = Forgejo.list_repos a.web a.forgejo_items skipping a.fuel;
      sync = sync a.tools default_mirror;
      remote = Forgejo.remote a.web skipping;
      exporters = forgejo_exporters a.web a.encoders a.fuel a.forgejo_exports skipping;
    }

unfoldable pub gitlab_runner : Adapters → GitLab.Client → Runner
gitlab_runner a client = record {
  list_repos = GitLab.list_repos a.web client a.gitlab_decoders a.fuel;
  sync = sync a.tools default_mirror;
  remote = GitLab.remote a.web client;
  exporters = gitlab_exporters a.web a.encoders a.fuel a.gitlab_exports client;
}

unfoldable pub github_runner : Adapters → GitHub.Client → Runner
github_runner a client = record {
  list_repos = GitHub.list_repos a.web a.github_items client a.fuel;
  sync = sync a.tools default_mirror;
  remote = GitHub.remote a.web client;
  exporters = github_exporters a.web a.encoders a.fuel a.github_exports client;
}

-- A client that cannot be built names the forge.
abbrev pub built {ℓ} : {A : Type ℓ} → Text → (A → Runner) → Result A → Result Runner
built name f (ok client) = ok (f client)
built name f (err e) = err (wrap name e)

unfoldable pub new_runner : Adapters → ForgeConfig → Result Runner
new_runner a fc =
    if fc.kind == text "forgejo"
    then built fc.name (forgejo_runner a fc) (Forgejo.new_client a.web fc.url fc.token)
    else if fc.kind == text "gitlab"
    then built fc.name (gitlab_runner a) (GitLab.new_client a.web fc.url fc.token)
    else if fc.kind == text "github"
    then built fc.name (github_runner a) (GitHub.new_client a.web fc.url fc.token)
    else err (wrap fc.name (unknown_kind fc.kind))

-- `run`: the status with which the program exits once cobra has executed a command.
unfoldable pub exit_status : Io (Unit {0}) → World → ℕ × World
exit_status execute w = let (r, w') = execute w in (settle r (λ e. 1) (λ _. 0), w')
