-- ===== src/Cli/DryRun/Predicts.antt =====
-- A dry run against the run that it previews.
use backup_git_repos.Base.{Text, ◌+◌, ◌≤◌, List, [], ◌∷◌, ◌≡◌, refl, ◌∙◌, count_if, arith, inl, inr}
use backup_git_repos.FilePath.{join}
use backup_git_repos.Error.{ok}
use backup_git_repos.Error.Steps.{Result-cases}
use backup_git_repos.World.{World, print_line}
use backup_git_repos.Repo.{Repo, state_all}
use backup_git_repos.Config.{ForgeConfig}
use backup_git_repos.Run.Types.{Runner, RunResult}
use backup_git_repos.Run.Counts.{nonempty, to_archive}
use backup_git_repos.Run.Accounts.{run-Accounts, count-nonempty}
use backup_git_repos.Run.Failure.{OnlyReads}
use backup_git_repos.Run.Loop.{run}
use backup_git_repos.Run.Scan.{stale_mirrors}
use backup_git_repos.Cli.Forge.{Selection, run_options, dry_run_config}
use backup_git_repos.Cli.Paths.{CliFlags}
use backup_git_repos.Cli.DryRun.{
  DryRunConfig, Preview, no_preview, preview_all, count_preview, preview_repo, print_stale,
  canonical_repos, dry_run_prune, prune_preview, previewed_prune, dry_run_forge,
}

preview_all-keeps :
    (cfg : DryRunConfig) (forge : Text) (repos : List Repo) (c : Preview) (w : World)
    → ((preview_all cfg forge repos (c, w)).1.fs ≡ w.fs)
      × ((preview_all cfg forge repos (c, w)).1.log ≡ w.log)
unfolding preview_all preview_repo print_line
preview_all-keeps cfg forge [] c w = (refl, refl)
preview_all-keeps cfg forge (repo ∷ repos) c w =
    preview_all-keeps cfg forge repos (count_preview cfg repo c) (preview_repo cfg forge repo w)

print_stale-keeps :
    (forge : Text) (stale : List Text) (w : World)
    → ((print_stale forge stale w).fs ≡ w.fs) × ((print_stale forge stale w).log ≡ w.log)
unfolding print_stale print_line
print_stale-keeps forge [] w = (refl, refl)
print_stale-keeps forge (path ∷ stale) w = print_stale-keeps forge stale _

module _ (runner : Runner) (reads : OnlyReads runner) (forge : Text) (cfg : DryRunConfig) where
  canonical_repos-keeps :
      (repos : List Repo) (w : World) → (canonical_repos runner forge cfg repos w).1.fs ≡ w.fs
  unfolding canonical_repos
  canonical_repos-keeps repos w = ground (arith, reads state_all w)

  dry_run_prune-keeps :
      (repos : List Repo) (w : World) → (dry_run_prune runner forge cfg repos w).1.fs ≡ w.fs
  unfolding dry_run_prune
  dry_run_prune-keeps repos w =
      let w₁ = (canonical_repos runner forge cfg repos w).1 in
      elim (Result-cases (canonical_repos runner forge cfg repos w).0) [
        | inr (e, p) ↦ rw p (canonical_repos-keeps repos w)
        | inl (canonical, p) ↦
            elim (Result-cases
              (stale_mirrors (join cfg.dest forge) (join cfg.archive_dir forge) canonical w₁)) [
                | inr (e, q) ↦ rw (p, q) (canonical_repos-keeps repos w)
                | inl (stale, q) ↦
                    rw (p, q) ((print_stale-keeps forge stale w₁).0 ∙ canonical_repos-keeps repos w)
              ]
      ]

  pruning-keeps :
      (repos : List Repo) (w : World) → (previewed_prune runner forge cfg repos w).1.fs ≡ w.fs
  unfolding previewed_prune
  pruning-keeps repos w = elim (Result-cases (dry_run_prune runner forge cfg repos w).0) [
    | inr (e, p) ↦ rw p (dry_run_prune-keeps repos w)
    | inl (n, p) ↦ rw p (dry_run_prune-keeps repos w)
  ]

  prune_preview-keeps :
      (repos : List Repo) (w : World) → (prune_preview runner forge cfg repos w).1.fs ≡ w.fs
  unfolding prune_preview
  prune_preview-keeps repos w = ground (arith, pruning-keeps repos w)

-- A dry run changes nothing on disk, whether it succeeds or fails, if the forge's listing does not.
pub dry_run_forge-keeps :
    (runner : Runner) (fc : ForgeConfig) (cfg : DryRunConfig) (w : World)
    → OnlyReads runner
    → (dry_run_forge fc cfg runner w).1.fs ≡ w.fs
unfolding dry_run_forge print_line
dry_run_forge-keeps runner fc cfg w reads =
    let w₁ = (runner.list_repos cfg.state w).1 in
    elim (Result-cases (runner.list_repos cfg.state w).0) [
      | inr (e, p) ↦ rw p (reads cfg.state w)
      | inl (repos, p) ↦
          let w₂ = (preview_all cfg fc.name repos (no_preview, w₁)).1 in
          let seen = (preview_all-keeps cfg fc.name repos no_preview w₁).0 ∙ reads cfg.state w in
          let done = prune_preview-keeps runner reads fc.name cfg repos w₂ ∙ seen in
          elim (Result-cases (prune_preview runner fc.name cfg repos w₂).0) [
            | inr (e, q) ↦ rw (p, q) done
            | inl (pruned, q) ↦ rw (p, q) done
          ]
    ]

preview_all-counts :
    (sel : Selection) (flags : CliFlags) (forge : Text) (repos : List Repo) (c : Preview)
    (w : World)
    → let d = (preview_all (dry_run_config sel flags) forge repos (c, w)).0 in
      (d.synced ≡ c.synced + count_if nonempty repos)
      × (d.skipped ≡ c.skipped + count_if (λ (q : Repo). q.empty) repos)
      × (d.archived ≡ c.archived + count_if (to_archive (run_options sel flags forge)) repos)
unfolding preview_all count_preview count_if dry_run_config run_options
preview_all-counts sel flags forge [] c w = omega arith
preview_all-counts sel flags forge (repo ∷ repos) c w =
    let cfg = dry_run_config sel flags in
    ground (
      arith,
      preview_all-counts sel flags forge repos (count_preview cfg repo c)
          (preview_repo cfg forge repo w),
    )

-- What a dry run announces against what the run then reports.
pub record IsForecast (c : Preview) (r : RunResult) : Type 0 where
  pub skipped : r.skipped ≡ c.skipped
  pub attempted : c.synced ≤ r.synced + r.failed
  pub synced : r.synced ≤ c.synced
  pub archived : r.archived ≤ c.archived
  pub wanted : c.archived ≤ r.archived + r.failed

-- Where the run over a forge succeeds, the dry run's counts for the listing that it works on are
-- a forecast of it: the same are skipped, and what is announced as synced or archived is, or failed.
pub preview_all-IsForecast :
    (runner : Runner) (sel : Selection) (flags : CliFlags) (forge : Text) (w v : World)
    (r : RunResult)
    → (run runner (run_options sel flags forge) w).0 ≡ ok r
    → (repos : List Repo) × ((runner.list_repos sel.state w).0 ≡ ok repos)
      × IsForecast (preview_all (dry_run_config sel flags) forge repos (no_preview, v)).0 r
unfolding run_options
preview_all-IsForecast runner sel flags forge w v r h =
    let (repos, listed, a) = run-Accounts runner (run_options sel flags forge) w r h in
    let counts = preview_all-counts sel flags forge repos no_preview v in
    let whole = count-nonempty repos in (repos, listed, omega (arith, a, counts, whole))
