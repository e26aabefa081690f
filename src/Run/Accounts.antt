-- ===== src/Run/Accounts.antt =====
-- What the counts of a finished run say of the repositories that were listed.
use backup_git_repos.Base.{
  ℕ, ◌+◌, ◌*◌, ◌≤◌, List, [], ◌∷◌, ◌≡◌, refl, arith, subst, count_if, length, inl, inr,
}
use backup_git_repos.Error.{ok}
use backup_git_repos.Error.Steps.{Result-cases, ok-injective}
use backup_git_repos.World.{World}
use backup_git_repos.Repo.{Repo}
use backup_git_repos.Run.Types.{Runner, Options, RunResult}
use backup_git_repos.Run.Outcome.{selected}
use backup_git_repos.Run.Counts.{nonempty, to_archive, mirror_all-Moved}
use backup_git_repos.Run.Loop.{new_counters, run_listed, full_listing, list_repos, run}
use backup_git_repos.Run.Scan.{stale_mirrors}

-- Every listed repository is skipped, synced or failed; only empty ones are skipped; what is
-- archived was synced and selected for it; and what was selected is archived or failed.
pub record Accounts (runner : Runner) (opts : Options) (repos : List Repo) (r : RunResult)
    : Type 0 where
  pub skipped : r.skipped ≡ count_if (λ (q : Repo). q.empty) repos
  pub attempted : r.synced + r.skipped ≤ length repos
  pub covered : length repos ≤ r.synced + r.failed + r.skipped
  pub failed : r.failed + r.skipped ≤ length repos
  pub archived_synced : r.archived ≤ r.synced
  pub archived_wanted : r.archived ≤ count_if (to_archive opts) repos
  pub wanted_archived : count_if (to_archive opts) repos ≤ r.archived + r.failed
  pub exported : r.metadata_exported ≤ count_if nonempty repos * selected opts runner.exporters

pub count-nonempty :
    (repos : List Repo)
    → count_if (λ (q : Repo). q.empty) repos + count_if nonempty repos ≡ length repos
unfolding count_if
count-nonempty [] = refl
count-nonempty (r ∷ repos) = ground (arith, count-nonempty repos)

module _ (runner : Runner) (opts : Options) where
  pub run_listed-Accounts :
      (repos : List Repo) (stale : List (List ℕ)) (w : World)
      → Accounts runner opts repos (run_listed runner opts repos stale w).0
  unfolding run_listed
  run_listed-Accounts repos stale w =
      let moved = mirror_all-Moved runner opts repos (new_counters (length repos)) w in
      omega (arith, count-nonempty repos, moved)

  -- A run that returns no error has listed the repositories, and its counts account for them.
  pub run-Accounts :
      (w : World) (r : RunResult)
      → (run runner opts w).0 ≡ ok r
      → (repos : List Repo) × ((runner.list_repos opts.state w).0 ≡ ok repos)
        × Accounts runner opts repos r
  unfolding run list_repos
  run-Accounts w r h = elim (Result-cases (runner.list_repos opts.state w).0) [
    | inr (e, q) ↦ cc (rw q at h)
    | inl (repos, q) ↦
        let (full, w₁) = full_listing runner opts.state repos (runner.list_repos opts.state w).1 in
        (
          repos,
          q,
          elim (Result-cases full) [
            | inr (e, q₁) ↦ cc (rw (q, q₁) at h)
            | inl (canonical, q₁) ↦
                elim (Result-cases (stale_mirrors opts.dest opts.archive_dir canonical w₁)) [
                  | inr (e, q₂) ↦ cc (rw (q, q₁, q₂) at h)
                  | inl (stale, q₂) ↦
                      subst (Accounts runner opts repos) (ok-injective _ r (rw (q, q₁, q₂) at h))
                        (run_listed-Accounts repos stale w₁)
                ]
          ],
        )
  ]
