-- ===== src/Run/Counts.antt =====
-- The counters after all repositories: what the final counts say of the listing.
use backup_git_repos.Base.{
  ℕ, ◌+◌, ◌≤◌, List, [], ◌∷◌, ◌≡◌, Bool, not, ◌&&◌, arith, count_if, Bool-cases, inl, inr, ◌*◌,
}
use backup_git_repos.World.{World}
use backup_git_repos.Repo.{Repo, wants}
use backup_git_repos.Run.Types.{Runner, Options}
use backup_git_repos.Run.Outcome.{selected, mirror_repo-Fits}
use backup_git_repos.Run.Loop.{
  Counters, one_if, report_done, add_outcome, run_repo, skip_repo, mirror_all,
}

-- The repositories that are mirrored, and those of them that are archived too.
abbrev pub nonempty : Repo → Bool
nonempty r = not r.empty

abbrev pub to_archive : Options → Repo → Bool
to_archive opts r = not r.empty && wants opts.archive r.archived

-- How far the counters moved over repositories of which `e` are empty, `n` are not and `a` are to be
-- archived, with `k` exporters selected.
pub record Moved (e n a k : ℕ) (c d : Counters) : Type 0 where
  pub skipped : d.skipped ≡ c.skipped + e
  pub synced : d.synced ≤ c.synced + n
  pub failed : d.failed ≤ c.failed + n
  pub accounted : c.synced + c.failed + n ≤ d.synced + d.failed
  pub archived_synced : d.archived + c.synced ≤ d.synced + c.archived
  pub archived_wanted : d.archived ≤ c.archived + a
  pub wanted_archived : c.archived + c.failed + a ≤ d.archived + d.failed
  pub exported : d.metadata_exported ≤ c.metadata_exported + n * k
  pub done : d.done ≡ c.done + e + n
  pub total : d.total ≡ c.total

module _ (runner : Runner) (opts : Options) where
  abbrev pub k : ℕ
  k = selected opts runner.exporters

  pub run_repo-Moved :
      (repo : Repo) (c : Counters) (w : World)
      → Moved 0 1
          (one_if (wants opts.archive repo.archived))
          k
          c
          (report_done (run_repo runner opts repo (c, w)).0)
  unfolding run_repo add_outcome report_done
  run_repo-Moved repo c w = let fits = mirror_repo-Fits opts repo runner w in ground arith

  pub skip_repo-Moved :
      (repo : Repo) (c : Counters) (w : World)
      → Moved 1 0 0 k c (report_done (skip_repo repo (c, w)).0)
  unfolding skip_repo report_done
  skip_repo-Moved repo c w = ground arith

  pub Moved-trans :
      (e n a f m b j : ℕ) {c d x : Counters}
      → Moved e n a j c d
      → Moved f m b j d x
      → Moved (e + f) (n + m) (a + b) j c x
  Moved-trans e n a f m b j p q = omega arith

  -- The counters after all repositories of a listing.
  pub mirror_all-Moved :
      (repos : List Repo) (c : Counters) (w : World)
      → Moved
          (count_if (λ (r : Repo). r.empty) repos)
          (count_if nonempty repos)
          (count_if (to_archive opts) repos)
          k
          c
          (mirror_all runner opts repos (c, w)).0
  unfolding mirror_all count_if
  mirror_all-Moved [] c w = omega arith
  mirror_all-Moved (repo ∷ repos) c w = elim (Bool-cases repo.empty) [
    | inl e ↦
        let (c', w') = skip_repo repo (c, w) in
        simp e (
          Moved-trans 1 0 0 _ _ _ k (skip_repo-Moved repo c w)
            (mirror_all-Moved repos (report_done c') w'))
    | inr e ↦
        let (c', w') = run_repo runner opts repo (c, w) in
        simp e (
          Moved-trans 0 1 (one_if (wants opts.archive repo.archived)) _ _ _ k
            (run_repo-Moved repo c w) (mirror_all-Moved repos (report_done c') w'))
  ]
