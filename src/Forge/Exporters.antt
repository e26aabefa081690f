-- ===== src/Forge/Exporters.antt =====
-- cmd/backup-git-repos/main.go: the exporters that newRunner gives a runner, in its order.
use backup_git_repos.Base.{Text, ℕ, List, [], ◌∷◌, Option}
use backup_git_repos.Metadata.Write.{Encoders}
use backup_git_repos.Run.Types.{MetadataExporter}
use backup_git_repos.Forge.Http.{Web}
use backup_git_repos.Forge.Forgejo
use backup_git_repos.Forge.Forgejo.Issues as ForgejoIssues
use backup_git_repos.Forge.Forgejo.PullRequests as ForgejoPullRequests
use backup_git_repos.Forge.Forgejo.Releases as ForgejoReleases
use backup_git_repos.Forge.GitHub
use backup_git_repos.Forge.GitHub.Issues as GitHubIssues
use backup_git_repos.Forge.GitHub.PullRequests as GitHubPullRequests
use backup_git_repos.Forge.GitHub.Releases as GitHubReleases
use backup_git_repos.Forge.GitLab
use backup_git_repos.Forge.GitLab.Issues as GitLabIssues
use backup_git_repos.Forge.GitLab.MergeRequests as GitLabMergeRequests
use backup_git_repos.Forge.GitLab.Releases as GitLabReleases

-- The JSON decoders of each adapter's exporters.
pub record ForgejoDecoders : Type 0 where
  pub issues : ForgejoIssues.Decoders
  pub releases : Text → Option (List ForgejoReleases.ReleaseItem)
  pub pull_requests : ForgejoPullRequests.Decoders

pub record GitLabDecoders : Type 0 where
  pub issues : GitLabIssues.Decoders
  pub releases : Text → Option (List GitLabReleases.ReleaseItem)
  pub pull_requests : GitLabMergeRequests.Decoders

pub record GitHubDecoders : Type 0 where
  pub issues : GitHubIssues.Decoders
  pub releases : Text → Option (List GitHubReleases.ReleaseItem)
  pub pull_requests : GitHubPullRequests.Decoders

module _ (web : Web) (enc : Encoders) (fuel : ℕ) where
  unfoldable pub forgejo_exporters : ForgejoDecoders → Forgejo.Client → List MetadataExporter
  forgejo_exporters d client =
      ForgejoIssues.issue_exporter web enc d.issues client fuel
      ∷ ForgejoReleases.release_exporter web enc d.releases client fuel
      ∷ ForgejoPullRequests.pull_request_exporter web enc d.pull_requests client fuel
      ∷ []

  unfoldable pub gitlab_exporters : GitLabDecoders → GitLab.Client → List MetadataExporter
  gitlab_exporters d client =
      GitLabIssues.issue_exporter web enc d.issues client fuel
      ∷ GitLabReleases.release_exporter web enc d.releases client fuel
      ∷ GitLabMergeRequests.pull_request_exporter web enc d.pull_requests client fuel
      ∷ []

  unfoldable pub github_exporters : GitHubDecoders → GitHub.Client → List MetadataExporter
  github_exporters d client =
      GitHubIssues.issue_exporter web enc d.issues client fuel
      ∷ GitHubReleases.release_exporter web enc d.releases client fuel
      ∷ GitHubPullRequests.pull_request_exporter web enc d.pull_requests client fuel
      ∷ []
