-- ===== src/Run/Progress.antt =====
-- The calls of the progress callback.
use backup_git_repos.Base.{
  ℕ, zero, suc, ◌+◌, List, [], ◌∷◌, ◌++◌, ◌≡◌, length, append_assoc, append-nil, Bool-cases, inl,
  inr, ◌∙◌,
}
use backup_git_repos.World.{World}
use backup_git_repos.Repo.{Repo}
use backup_git_repos.Run.Types.{Runner, Options}
use backup_git_repos.Run.Loop.{
  Counters, new_counters, report_done, add_outcome, run_repo, skip_repo, mirror_all,
}

-- `n` calls from `done` on, each with one more repository done.
unfoldable pub ticks : ℕ → ℕ → ℕ → List (ℕ × ℕ)
ticks done zero total = []
ticks done (suc n) total = (done + 1, total) ∷ ticks (done + 1) n total

module _ (runner : Runner) (opts : Options) where
  mirror_all-progress :
      (repos : List Repo) (c : Counters) (w : World)
      → (mirror_all runner opts repos (c, w)).0.progress
        ≡ c.progress ++ ticks c.done (length repos) c.total
  unfolding mirror_all ticks report_done skip_repo run_repo add_outcome
  mirror_all-progress [] c w = rw append-nil
  mirror_all-progress (repo ∷ repos) c w = elim (Bool-cases repo.empty) [
    | inl e ↦
        let (c', w') = skip_repo repo (c, w) in
        simp e (mirror_all-progress repos (report_done c') w' ∙ append_assoc c.progress _ _)
    | inr e ↦
        let (c', w') = run_repo runner opts repo (c, w) in
        simp e (mirror_all-progress repos (report_done c') w' ∙ append_assoc c.progress _ _)
  ]

  -- The callback hears of each repository once: 1 of n, 2 of n, up to n of n.
  pub progress-ticks :
      (repos : List Repo) (w : World)
      → (mirror_all runner opts repos (new_counters (length repos), w)).0.progress
        ≡ ticks 0 (length repos) (length repos)
  progress-ticks repos w = mirror_all-progress repos (new_counters (length repos)) w
