-- ===== src/Run/Failure.antt =====
-- internal/backup/run.go: the disk after a run that returns an error.
use backup_git_repos.Base.{◌≡◌, ◌∙◌, arith, inl, inr}
use backup_git_repos.Error.{Err, err}
use backup_git_repos.Error.Steps.{Result-cases}
use backup_git_repos.World.{World}
use backup_git_repos.Repo.{Repo, State, state_all, state_eq}
use backup_git_repos.Base.{List}
use backup_git_repos.Run.Types.{Runner, Options}
use backup_git_repos.Run.Scan.{stale_mirrors}
use backup_git_repos.Run.Loop.{full_listing, list_repos, run}

-- A listing that only reads.
abbrev pub OnlyReads : Runner → Type 0
OnlyReads runner = (state : State) (w : World) → (runner.list_repos state w).1.fs ≡ w.fs

module _ (runner : Runner) (reads : OnlyReads runner) where
  full_listing-keeps :
      (state : State) (repos : List Repo) (w : World)
      → (full_listing runner state repos w).1.fs ≡ w.fs
  unfolding full_listing
  full_listing-keeps state repos w = ground (arith, reads state_all w)

  -- Where a run fails, the disk is as it was before, if the forge's listing changes nothing on it: a
  -- repository, an export or an archive that fails is counted, and does not fail the run.
  pub run_failed :
      (opts : Options) (w : World) (e : Err)
      → (run runner opts w).0 ≡ err e
      → (run runner opts w).1.fs ≡ w.fs
  unfolding run list_repos
  run_failed opts w e h =
      let w₁ = (runner.list_repos opts.state w).1 in
      elim (Result-cases (runner.list_repos opts.state w).0) [
        | inr (x, p) ↦ rw p (reads opts.state w)
        | inl (repos, p) ↦
            let w₂ = (full_listing runner opts.state repos w₁).1 in
            let kept = full_listing-keeps opts.state repos w₁ ∙ reads opts.state w in
            elim (Result-cases (full_listing runner opts.state repos w₁).0) [
              | inr (x, q) ↦ rw (p, q) kept
              | inl (canonical, q) ↦
                  elim (Result-cases (stale_mirrors opts.dest opts.archive_dir canonical w₂)) [
                    | inr (x, r) ↦ rw (p, q, r) kept
                    | inl (stale, r) ↦ cc (rw (p, q, r) at h)
                  ]
            ]
      ]
