-- ===== src/Run/Loop.antt =====
-- internal/backup/run.go: a run, from the listing to the counts. Repositories are mirrored one after
-- another here; Run/Schedule says what the order can change.
use backup_git_repos.Base.{
  Text, text, ℕ, ◌+◌, List, [], ◌∷◌, ◌++◌, Bool, ◌==◌, length, if◌then◌else◌, ltb,
}
use backup_git_repos.Error.{Result, ok, is_not_exist}
use backup_git_repos.World.{
  World, Io, pure, wrapping, settle, ◌>>=◌, log_line, info, warn, error, remove_all, remove,
}
use backup_git_repos.Repo.{Repo, State, state_all, state_eq}
use backup_git_repos.Run.Types.{
  Runner, Options, RunResult, MirrorOutcome, mirror_path, archive_path,
}
use backup_git_repos.Run.Scan.{stale_mirrors}
use backup_git_repos.Run.Worker.{mirror_repo}

-- `runCounters`. `progress` holds the calls of `opts.Progress`, in their order.
pub record Counters : Type 0 where
  pub synced : ℕ
  pub skipped : ℕ
  pub failed : ℕ
  pub archived : ℕ
  pub metadata_exported : ℕ
  pub done : ℕ
  pub total : ℕ
  pub progress : List (ℕ × ℕ)

abbrev pub new_counters : ℕ → Counters
new_counters total = record {
  synced = 0;
  skipped = 0;
  failed = 0;
  archived = 0;
  metadata_exported = 0;
  done = 0;
  total = total;
  progress = [];
}

unfoldable pub report_done : Counters → Counters
report_done c = record c { done = c.done + 1; progress = c.progress ++ (c.done + 1, c.total) ∷ [] }

abbrev pub one_if : Bool → ℕ
one_if b = if b then 1 else 0

-- The additions of `runRepo`.
unfoldable pub add_outcome : MirrorOutcome → Counters → Counters
add_outcome o c = record c {
  synced = c.synced + one_if o.synced;
  archived = c.archived + one_if o.archived;
  failed = c.failed + one_if o.failed;
  metadata_exported = c.metadata_exported + o.metadata_exported;
}

unfoldable pub run_repo : Runner → Options → Repo → Counters × World → Counters × World
run_repo runner opts repo (c, w) =
    let (outcome, w') = mirror_repo opts repo runner w in (add_outcome outcome c, w')

unfoldable pub skip_repo : Repo → Counters × World → Counters × World
skip_repo repo (c, w) =
    (record c { skipped = c.skipped + 1 }, log_line warn "skipping empty repository" repo.path w)

abbrev pub reported : Counters × World → Counters × World
reported (c, w) = (report_done c, w)

-- The loop of `Run` over the listing.
unfoldable pub mirror_all : Runner → Options → List Repo → Counters × World → Counters × World
mirror_all runner opts [] st = st
mirror_all runner opts (repo ∷ repos) st =
    mirror_all runner opts repos
      (reported (if repo.empty then skip_repo repo st else run_repo runner opts repo st))

-- The archive goes after its mirror; a failure there is only logged.
unfoldable pub prune_archive : Options → Text → World → World
prune_archive opts path w =
    let (cleaned, w') = remove (archive_path opts.archive_dir path) w in
    settle cleaned
      (λ e.
        if is_not_exist e
        then w'
        else log_line error "pruned mirror but its archive could not be removed" path w')
      (λ _. w')

-- One stale path of `prune`, and whether it counts as pruned.
unfoldable pub prune_one : Options → Text → World → ℕ × World
prune_one opts path w =
    let (removed, w') = remove_all (mirror_path opts.dest path) w in
    if opts.prune_removed
    then settle removed (λ _. (0, log_line error "prune failed" path w'))
        (λ _. (1, prune_archive opts path (log_line info "pruned removed repository" path w')))
    else (0, log_line warn "mirror's repository no longer found on forge" path w)

unfoldable pub prune : Options → List Text → World → ℕ × World
prune opts [] w = (0, w)
prune opts (path ∷ stale) w =
    let (n, w₁) = prune_one opts path w in let (m, w₂) = prune opts stale w₁ in (n + m, w₂)

-- The full listing, asked for again where the first one was filtered.
unfoldable pub full_listing : Runner → State → List Repo → Io (List Repo)
full_listing runner state repos =
    if state == state_all then pure repos else wrapping (text "run") (runner.list_repos state_all)

-- `Runner.listRepos`: the listing that is mirrored, and the full one.
unfoldable pub list_repos : Runner → State → Io (List Repo × List Repo)
list_repos runner state = do
  repos ← wrapping (text "run") (runner.list_repos state)
  canonical ← full_listing runner state repos
  pure (repos, canonical)

-- The number of repositories that `Run` mirrors at once.
unfoldable pub worker_limit : Options → ℕ → ℕ
worker_limit opts processors = if ltb opts.concurrency 1 then processors else opts.concurrency

abbrev pub run_result : Counters → ℕ → RunResult
run_result c pruned = record {
  synced = c.synced;
  skipped = c.skipped;
  failed = c.failed;
  archived = c.archived;
  pruned = pruned;
  metadata_exported = c.metadata_exported;
}

-- From the point where the listings and the stale paths are known.
unfoldable pub run_listed : Runner → Options → List Repo → List Text → World → RunResult × World
run_listed runner opts repos stale w =
    let (c, w₁) = mirror_all runner opts repos (new_counters (length repos), w) in
    let (pruned, w₂) = prune opts stale w₁ in (run_result c pruned, w₂)

abbrev pub reading_world {ℓ} : {A : Type ℓ} → (World → Result A) → Io A
reading_world f w = (f w, w)

-- A run that reached its end.
abbrev finished {ℓ} : {A : Type ℓ} → (World → A × World) → Io A
finished f w = let (a, w') = f w in (ok a, w')

unfoldable pub run : Runner → Options → Io RunResult
run runner opts = do
  (repos, canonical) ← list_repos runner opts.state
  stale ← wrapping (text "run") (reading_world (stale_mirrors opts.dest opts.archive_dir canonical))
  finished (run_listed runner opts repos stale)
