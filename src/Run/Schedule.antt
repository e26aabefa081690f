-- ===== src/Run/Schedule.antt =====
-- internal/backup/run.go: the workers of `Run`, as its errgroup starts and ends them. A worker
-- stands for one step here, taken when it ends: workers end in any order, and how their calls
-- interleave on disk is left out.
pub mod Limit
pub mod Sequential
pub mod Totals
use backup_git_repos.Base.{ℕ, suc, ◌<◌, List, [], ◌∷◌, ◌++◌, ◌≡◌, true, false, length}
use backup_git_repos.World.{World}
use backup_git_repos.Repo.{Repo}
use backup_git_repos.Run.Types.{Runner, Options}
use backup_git_repos.Run.Loop.{Counters, new_counters, run_repo, skip_repo, reported}

-- The repositories that the loop has not come to, those with a worker, the counters and the process.
pub record RunState : Type 0 where
  pub pending : List Repo
  pub running : List Repo
  pub counted : Counters × World

module _ (runner : Runner) (opts : Options) (limit : ℕ) where
  pub data Step (s : RunState) : RunState → Type 0 where
    -- An empty repository gets no worker.
    skip :
        (repo : Repo) (rest : List Repo)
        → s.pending ≡ repo ∷ rest
        → repo.empty ≡ true
        → Step s (record {
          pending = rest;
          running = s.running;
          counted = reported (skip_repo repo s.counted);
        })
    -- `g.Go` waits until fewer workers than the limit are running.
    start :
        (repo : Repo) (rest : List Repo)
        → s.pending ≡ repo ∷ rest
        → repo.empty ≡ false
        → length s.running < limit
        → Step s (record { pending = rest; running = repo ∷ s.running; counted = s.counted })
    finish :
        (before : List Repo) (repo : Repo) (after : List Repo)
        → s.running ≡ before ++ repo ∷ after
        → Step s (record {
          pending = s.pending;
          running = before ++ after;
          counted = reported (run_repo runner opts repo s.counted);
        })

  -- Steps from the start of the loop.
  pub data Schedule (s : RunState) : ℕ → RunState → Type 0 where
    begin : Schedule s 0 s
    later : {n : ℕ} {t u : RunState} → Schedule s n t → Step t u → Schedule s (suc n) u

abbrev pub initial : List Repo → World → RunState
initial repos w = record {
  pending = repos;
  running = [];
  counted = (new_counters (length repos), w);
}

-- `g.Wait` returns.
pub record IsDone (s : RunState) : Type 0 where
  pub none_pending : s.pending ≡ []
  pub none_running : s.running ≡ []
