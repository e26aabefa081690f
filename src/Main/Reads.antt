-- ===== src/Main/Reads.antt =====
-- cmd/backup-git-repos/main.go with internal/backup/cli.go: the disk after `list` and a dry run, over
-- the adapters that newRunner wires.
use backup_git_repos.Base.{
  Text, text, [], List, Option, Bool, true, ◌||◌, ◌==◌, list_eq, nat_eq, ◌≡◌, subst, inl, inr,
  Bool-cases,
}
use backup_git_repos.FilePath.{FilePath}
use backup_git_repos.Error.{Result, ok, err}
use backup_git_repos.Error.Steps.{ok-injective}
use backup_git_repos.World.{World}
use backup_git_repos.World.Near.{Stays-fs}
use backup_git_repos.Config.{Config}
use backup_git_repos.Run.Types.{Runner}
use backup_git_repos.Run.Failure.{OnlyReads}
use backup_git_repos.Cli.{resolve_config_path, run_backup}
use backup_git_repos.Cli.Paths.{CliFlags}
use backup_git_repos.Cli.Flags.{Flag, Viper, build_viper, resolved_flags}
use backup_git_repos.Cli.Init.{Console}
use backup_git_repos.Cli.Reads.{AllOnlyRead, run_backup-keeps}
use backup_git_repos.Forge.Forgejo
use backup_git_repos.Forge.GitHub
use backup_git_repos.Forge.GitLab
use backup_git_repos.Forge.Stays.{SendKeeps}
use backup_git_repos.Forge.Stays.Listing.{github-Stays, forgejo-Stays, gitlab-Stays}
use backup_git_repos.Main.{
  Adapters, built, forgejo_runner, gitlab_runner, github_runner, new_runner,
}

built-OnlyReads :
    {A : Type 0} (name : Text) (f : A → Runner) (client : Result A) (runner : Runner)
    → ((c : A) → OnlyReads (f c))
    → built name f client ≡ ok runner
    → OnlyReads runner
built-OnlyReads name f (ok c) runner h e = subst OnlyReads (ok-injective (f c) runner e) (h c)
built-OnlyReads name f (err x) runner h e = cc

module _ (a : Adapters) (sends : SendKeeps a.web) where
  -- The listing of every runner that newRunner builds only reads.
  new_runner-AllOnlyRead : AllOnlyRead (new_runner a)
  unfolding new_runner forgejo_runner gitlab_runner github_runner
  new_runner-AllOnlyRead fc runner e = elim (Bool-cases (fc.kind == text "forgejo")) [
    | inl k ↦
        built-OnlyReads fc.name (forgejo_runner a fc) (Forgejo.new_client a.web fc.url fc.token)
          runner
          (λ c state w. Stays-fs ((forgejo_runner a fc c).list_repos state) w (
            forgejo-Stays a.web sends [] a.forgejo_items
              (record c { skip_mirrors = fc.skip_mirrors }) a.fuel state))
          (rw k at e)
    | inr k ↦ elim (Bool-cases (fc.kind == text "gitlab")) [
      | inl l ↦
          built-OnlyReads fc.name (gitlab_runner a) (GitLab.new_client a.web fc.url fc.token) runner
            (λ c state w.
              Stays-fs ((gitlab_runner a c).list_repos state) w
                (gitlab-Stays a.web sends [] c a.gitlab_decoders a.fuel state))
            (rw (k, l) at e)
      | inr l ↦ elim (Bool-cases (fc.kind == text "github")) [
        | inl m ↦
            built-OnlyReads fc.name (github_runner a) (GitHub.new_client a.web fc.url fc.token)
              runner
              (λ c state w.
                Stays-fs ((github_runner a c).list_repos state) w
                  (github-Stays a.web sends [] a.github_items c a.fuel state))
              (rw (k, l, m) at e)
        | inr m ↦ cc (rw (k, l, m) at e)
      ]
    ]
  ]

-- `list`, and a run whose flags resolve to --dry-run, leave the disk as it was over any
-- configuration of GitHub, GitLab and Forgejo, whether they succeed or fail. A configuration file is
-- found, and answering a request changes nothing on disk.
pub reading_commands-keep :
    (a : Adapters) (decode : Text → Option Config) (viper : Viper) (console : Console)
    (initial : CliFlags) (bound : List Flag) (list_only : Bool) (path : FilePath) (w : World)
    → SendKeeps a.web
    → (resolve_config_path console initial w).0 ≡ ok path
    → list_only || (resolved_flags viper (build_viper viper bound path w) w.env).dry_run ≡ true
    → (run_backup decode viper (new_runner a) console initial bound list_only w).1.fs ≡ w.fs
reading_commands-keep a decode viper console initial bound list_only path w sends found quiet =
    run_backup-keeps decode viper (new_runner a) console initial bound list_only path w
      (new_runner-AllOnlyRead a sends) found quiet
