-- ===== src/Run/Schedule/Sequential.antt =====
-- internal/backup/run.go: the order in which Run/Loop mirrors, as a schedule.
use backup_git_repos.Base.{ℕ, suc, ◌≤◌, List, [], ◌∷◌, arith, Bool-cases, inl, inr, refl}
use backup_git_repos.World.{World}
use backup_git_repos.Repo.{Repo}
use backup_git_repos.Run.Types.{Runner, Options}
use backup_git_repos.Run.Loop.{Counters, mirror_all}
use backup_git_repos.Run.Schedule.{RunState, skip, start, finish, Schedule, begin, later, initial}

module _ (runner : Runner) (opts : Options) (limit : ℕ) where
  abbrev pub between : List Repo → Counters × World → RunState
  between repos st = record { pending = repos; running = []; counted = st }

  mirror_all-from :
      (origin : RunState) (repos : List Repo) (st : Counters × World) (n : ℕ)
      → 1 ≤ limit
      → Schedule runner opts limit origin n (between repos st)
      → (m : ℕ) × Schedule runner opts limit origin m (between [] (mirror_all runner opts repos st))
  unfolding mirror_all
  mirror_all-from origin [] st n h sched = (n, sched)
  mirror_all-from origin (repo ∷ repos) st n h sched = elim (Bool-cases repo.empty) [
    | inl e ↦
        simp e (mirror_all-from origin repos _ (suc n) h (later sched (skip repo repos refl e)))
    | inr e ↦ simp e (
        mirror_all-from origin repos _ (suc (suc n)) h (
          later (later sched (start repo repos refl e (omega (arith, h))))
            (finish [] repo [] refl)))
  ]

  -- Mirroring one repository after another, in the order of the listing, is one of the schedules
  -- that any limit but zero allows.
  mirror_all-Schedule :
      (repos : List Repo) (w : World)
      → 1 ≤ limit
      → (n : ℕ) × Schedule runner opts limit
          (initial repos w)
          n
          (between [] (mirror_all runner opts repos (initial repos w).counted))
  mirror_all-Schedule repos w h =
      mirror_all-from (initial repos w) repos (initial repos w).counted 0 h begin
