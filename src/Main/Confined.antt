-- ===== src/Main/Confined.antt =====
-- cmd/backup-git-repos/main.go with internal/backup/run.go: the runners that newRunner builds, of
-- every kind, keep a run to its directories.
use backup_git_repos.Base.{
  Text, text, List, All, ◌==◌, list_eq, nat_eq, ◌≡◌, sym, subst, inl, inr, Bool-cases,
}
use backup_git_repos.FilePath.{FilePath}
use backup_git_repos.Fs.{get}
use backup_git_repos.Fs.Update.{Apart}
use backup_git_repos.Error.{Result, ok, err}
use backup_git_repos.Error.Steps.{ok-injective}
use backup_git_repos.World.{World, Io}
use backup_git_repos.World.Near.{Stays, Apart-below}
use backup_git_repos.Repo.{Repo}
use backup_git_repos.Config.{ForgeConfig}
use backup_git_repos.Metadata.Write.Numbered.{IsItoa}
use backup_git_repos.Run.Types.{Runner, Options}
use backup_git_repos.Run.Scan.{stale_mirrors}
use backup_git_repos.Run.Loop.{list_repos, run}
use backup_git_repos.Run.Outside.{StaysBelow, IsConfined, IsNamed, IsOutside}
use backup_git_repos.Run.Outside.Whole.{AllNamed, run_outside}
use backup_git_repos.Mirror.Confined.{WorksInPlace, sync-StaysBelow}
use backup_git_repos.Forge.Forgejo
use backup_git_repos.Forge.GitHub
use backup_git_repos.Forge.GitLab
use backup_git_repos.Forge.Exporters.{forgejo_exporters, gitlab_exporters, github_exporters}
use backup_git_repos.Forge.Stays.{SendKeeps}
use backup_git_repos.Forge.Stays.Listing.{github-Stays, forgejo-Stays, gitlab-Stays}
use backup_git_repos.Forge.Stays.GitHub as GitHubStays
use backup_git_repos.Forge.Stays.Forgejo as ForgejoStays
use backup_git_repos.Forge.Stays.GitLab as GitLabStays
use backup_git_repos.Main.{
  Adapters, default_mirror, built, forgejo_runner, gitlab_runner, github_runner, new_runner,
}

-- A call that stays away from what is apart from its directory.
below :
    {A : Type 0} (m : FilePath → Io A)
    → ((dir q : FilePath) → Apart dir q → Stays q (m dir))
    → StaysBelow m
below m h dir root rest q w e ne far =
    (h dir q (subst (λ (d : FilePath). Apart d q) (sym e) (Apart-below root rest q far))).at w

-- What the runners rely on: a request changes nothing on disk, git works where it is told to, and
-- numbers are printed in digits.
pub record KeepsOut (a : Adapters) : Type 0 where
  pub sends : SendKeeps a.web
  pub works : WorksInPlace a.tools
  pub itoa : IsItoa a.encoders.itoa

module _ (a : Adapters) (k : KeepsOut a) where
  forgejo-IsConfined : (fc : ForgeConfig) (c : Forgejo.Client) → IsConfined (forgejo_runner a fc c)
  unfolding forgejo_runner forgejo_exporters Forgejo.Issues.issue_exporter
      Forgejo.Releases.release_exporter Forgejo.PullRequests.pull_request_exporter
  forgejo-IsConfined fc c =
      let skipping = record c { skip_mirrors = fc.skip_mirrors } in
      record {
        lists =
            λ state q w. (forgejo-Stays a.web k.sends q a.forgejo_items skipping a.fuel state).at w;
        syncs = λ r. sync-StaysBelow a.tools default_mirror r k.works;
        exports = (
          λ repo. below _ (λ dir q far.
              ForgejoStays.export_issues-Stays a.web k.sends a.encoders skipping a.fuel q k.itoa
                a.forgejo_exports.issues repo dir far),
          (
            λ repo. below _ (λ dir q far.
                ForgejoStays.export_releases-Stays a.web k.sends a.encoders skipping a.fuel q
                  a.forgejo_exports.releases repo dir far),
            (
              λ repo. below _ (λ dir q far.
                  ForgejoStays.export_pulls-Stays a.web k.sends a.encoders skipping a.fuel q k.itoa
                    a.forgejo_exports.pull_requests repo dir far),
              tt,
            ),
          ),
        );
      }

  gitlab-IsConfined : (c : GitLab.Client) → IsConfined (gitlab_runner a c)
  unfolding gitlab_runner gitlab_exporters GitLab.Issues.issue_exporter
      GitLab.Releases.release_exporter GitLab.MergeRequests.pull_request_exporter
  gitlab-IsConfined c = record {
    lists = λ state q w. (gitlab-Stays a.web k.sends q c a.gitlab_decoders a.fuel state).at w;
    syncs = λ r. sync-StaysBelow a.tools default_mirror r k.works;
    exports = (
      λ repo. below _ (λ dir q far.
          GitLabStays.export_issues-Stays a.web k.sends a.encoders c a.fuel q k.itoa
            a.gitlab_exports.issues repo dir far),
      (
        λ repo. below _ (λ dir q far.
            GitLabStays.export_releases-Stays a.web k.sends a.encoders c a.fuel q
              a.gitlab_exports.releases repo dir far),
        (
          λ repo. below _ (λ dir q far.
              GitLabStays.export_merge_requests-Stays a.web k.sends a.encoders c a.fuel q k.itoa
                a.gitlab_exports.pull_requests repo dir far),
          tt,
        ),
      ),
    );
  }

  github-IsConfined : (c : GitHub.Client) → IsConfined (github_runner a c)
  unfolding github_runner github_exporters GitHub.Issues.issue_exporter
      GitHub.Releases.release_exporter GitHub.PullRequests.pull_request_exporter
  github-IsConfined c = record {
    lists = λ state q w. (github-Stays a.web k.sends q a.github_items c a.fuel state).at w;
    syncs = λ r. sync-StaysBelow a.tools default_mirror r k.works;
    exports = (
      λ repo. below _ (λ dir q far.
          GitHubStays.export_issues-Stays a.web k.sends a.encoders c a.fuel q k.itoa
            a.github_exports.issues repo dir far),
      (
        λ repo. below _ (λ dir q far.
            GitHubStays.export_releases-Stays a.web k.sends a.encoders c a.fuel q
              a.github_exports.releases repo dir far),
        (
          λ repo. below _ (λ dir q far.
              GitHubStays.export_pulls-Stays a.web k.sends a.encoders c a.fuel q k.itoa
                a.github_exports.pull_requests repo dir far),
          tt,
        ),
      ),
    );
  }

built-IsConfined :
    {A : Type 0} (name : Text) (f : A → Runner) (client : Result A) (runner : Runner)
    → ((c : A) → IsConfined (f c))
    → built name f client ≡ ok runner
    → IsConfined runner
built-IsConfined name f (ok c) runner h e = subst IsConfined (ok-injective (f c) runner e) (h c)
built-IsConfined name f (err x) runner h e = cc

new_runner-IsConfined :
    (a : Adapters) (fc : ForgeConfig) (runner : Runner)
    → KeepsOut a
    → new_runner a fc ≡ ok runner
    → IsConfined runner
unfolding new_runner
new_runner-IsConfined a fc runner k e = elim (Bool-cases (fc.kind == text "forgejo")) [
  | inl f ↦
      built-IsConfined fc.name (forgejo_runner a fc) (Forgejo.new_client a.web fc.url fc.token)
        runner (forgejo-IsConfined a k fc) (rw f at e)
  | inr f ↦ elim (Bool-cases (fc.kind == text "gitlab")) [
    | inl l ↦
        built-IsConfined fc.name (gitlab_runner a) (GitLab.new_client a.web fc.url fc.token) runner
          (gitlab-IsConfined a k) (rw (f, l) at e)
    | inr l ↦ elim (Bool-cases (fc.kind == text "github")) [
      | inl h ↦
          built-IsConfined fc.name (github_runner a) (GitHub.new_client a.web fc.url fc.token)
            runner (github-IsConfined a k) (rw (f, l, h) at e)
      | inr h ↦ cc (rw (f, l, h) at e)
    ]
  ]
]

-- A run over GitHub, GitLab or Forgejo changes nothing outside the destination, the directory of the
-- archives and its scratch directory, whatever the forge answers, whatever fails and whatever is
-- pruned. The paths of the repositories and of the stale mirrors do not lead out of the destination;
-- requests, git and git-lfs, and the printing of numbers are as documented.
pub new_runner_outside :
    (a : Adapters) (fc : ForgeConfig) (runner : Runner) (opts : Options) (q : FilePath)
    (w w₁ : World) (repos canonical : List Repo) (stale : List Text)
    → KeepsOut a
    → new_runner a fc ≡ ok runner
    → list_repos runner opts.state w ≡ (ok (repos, canonical), w₁)
    → stale_mirrors opts.dest opts.archive_dir canonical w₁ ≡ ok stale
    → AllNamed repos
    → All IsNamed stale
    → IsOutside opts q w
    → get q (run runner opts w).1.fs ≡ get q w.fs
new_runner_outside a fc runner opts q w w₁ repos canonical stale k e =
    run_outside runner (new_runner-IsConfined a fc runner k e) opts q w w₁ repos canonical stale
