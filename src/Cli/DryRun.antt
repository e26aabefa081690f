-- ===== src/Cli/DryRun.antt =====
-- internal/backup/cli.go: `run --dry-run`, which reads the destination and prints what a run would do.
pub mod Predicts
pub mod Action
use backup_git_repos.Base.{
  Text, text, ℕ, ◌+◌, String, List, [], ◌∷◌, ◌++◌, Bool, true, false, ◌&&◌, ◌==◌, Comparable,
  length, if◌then◌else◌,
}
use backup_git_repos.FilePath.{FilePath, join}
use backup_git_repos.Error.{Err, Result, ok, err, wrap}
use backup_git_repos.World.{
  World, Io, Line, line, summary, pure, wrapping, wrap_result, settle, ◌>>=◌, ◌>>◌, stat,
  print_line,
}
use backup_git_repos.Repo.{Repo, State, state_all, state_eq, ArchiveSelection, wants}
use backup_git_repos.Config.{ForgeConfig}
use backup_git_repos.Run.Types.{Runner, mirror_path}
use backup_git_repos.Run.Scan.{stale_mirrors}

-- `dryRunConfig`
pub record DryRunConfig : Type 0 where
  pub dest : FilePath
  pub archive_dir : FilePath
  pub state : State
  pub archive : ArchiveSelection
  pub prune_removed : Bool

-- The three counters of `dryRunForge`.
pub record Preview : Type 0 where
  pub synced : ℕ
  pub skipped : ℕ
  pub archived : ℕ

abbrev pub named : Text → Text → Text
named forge path = forge ++ (text "/" ++ path)

unfoldable pub dry_run_action : FilePath → Text → Repo → Bool → World → Text
dry_run_action dest forge repo want_archive w =
    if repo.archived && want_archive
    then text "clone"
    else settle (stat (mirror_path (join dest forge) repo.path ++ text "HEAD" ∷ []) w).0
        (λ e. text "clone") (λ n. text "update")

-- The line of a repository that would be mirrored.
unfoldable pub preview_line : DryRunConfig → Text → Repo → World → Text
preview_line cfg forge repo w =
    let want = wants cfg.archive repo.archived in
    named forge repo.path
    ++ (text ": "
        ++ (dry_run_action cfg.dest forge repo want w ++ (if want then text ", archive" else [])))

unfoldable pub count_preview : DryRunConfig → Repo → Preview → Preview
count_preview cfg repo c = if repo.empty then record c { skipped = c.skipped + 1 } else record c {
  synced = c.synced + 1;
  archived = c.archived + (if wants cfg.archive repo.archived then 1 else 0);
}

unfoldable pub preview_repo : DryRunConfig → Text → Repo → World → World
preview_repo cfg forge repo w =
    print_line
      (line (
        if repo.empty
        then named forge repo.path ++ text ": skip (empty)"
        else preview_line cfg forge repo w))
      w

-- The loop of `dryRunForge` over the listing.
unfoldable pub preview_all : DryRunConfig → Text → List Repo → Preview × World → Preview × World
preview_all cfg forge [] st = st
preview_all cfg forge (repo ∷ repos) (c, w) =
    preview_all cfg forge repos (count_preview cfg repo c, preview_repo cfg forge repo w)

unfoldable pub print_stale : Text → List Text → World → World
print_stale forge [] w = w
print_stale forge (path ∷ stale) w =
    print_stale forge stale (print_line (line (named forge path ++ text ": prune")) w)

-- The listing that staleness is judged against.
unfoldable pub canonical_repos : Runner → Text → DryRunConfig → List Repo → Io (List Repo)
canonical_repos runner forge cfg repos =
    if cfg.state == state_all
    then pure repos
    else wrapping (text "list") (runner.list_repos state_all)

unfoldable pub dry_run_prune : Runner → Text → DryRunConfig → List Repo → Io ℕ
dry_run_prune runner forge cfg repos = do
  canonical ← canonical_repos runner forge cfg repos
  stale ← λ w. (
    wrap_result (text "scan")
        (stale_mirrors (join cfg.dest forge) (join cfg.archive_dir forge) canonical w),
    w,
  )
  λ w. (ok (length stale), print_stale forge stale w)

-- What the summary says of pruning.
unfoldable pub previewed_prune : Runner → Text → DryRunConfig → List Repo → Io (List (String × ℕ))
previewed_prune runner forge cfg repos = do
  pruned ← dry_run_prune runner forge cfg repos
  pure (("prune", pruned) ∷ [])

unfoldable pub prune_preview : Runner → Text → DryRunConfig → List Repo → Io (List (String × ℕ))
prune_preview runner forge cfg repos w =
    if cfg.prune_removed then previewed_prune runner forge cfg repos w else (ok [], w)

unfoldable pub preview_summary : Text → Preview → List (String × ℕ) → Line
preview_summary forge c pruned =
    summary forge
      (("would sync", c.synced) ∷ ("skip", c.skipped) ∷ ("archive", c.archived) ∷ pruned)

abbrev pub no_preview : Preview
no_preview = record { synced = 0; skipped = 0; archived = 0 }

unfoldable pub dry_run_forge : ForgeConfig → DryRunConfig → Runner → Io (Unit {0})
dry_run_forge fc cfg runner = do
  repos ← wrapping (text "list") (runner.list_repos cfg.state)
  counts ← λ w. (let (c, w') = preview_all cfg fc.name repos (no_preview, w) in (ok c, w'))
  pruned ← prune_preview runner fc.name cfg repos
  λ w. (ok tt, print_line (preview_summary fc.name counts pruned) w)
