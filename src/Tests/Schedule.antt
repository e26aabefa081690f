-- ===== src/Tests/Schedule.antt =====
-- The theorems on the workers of a run, where the second of two ends first.
use backup_git_repos.Base.{
  ℕ, ◌≤◌, ◌<◌, [], ◌∷◌, ◌++◌, ◌≡◌, ◌⊎◌, refl, arith, text, lacks, true, false,
}
use backup_git_repos.Cli.Progress.{report, report_all, frame, decimal, digits}
use backup_git_repos.Cli.Progress.Drawn.{IsLine, report_all-IsLine}
use backup_git_repos.World.{World}
use backup_git_repos.Run.Types.{Options}
use backup_git_repos.Run.Loop.{
  Counters, worker_limit, run_result, run_repo, skip_repo, reported, new_counters,
}
use backup_git_repos.Run.Accounts.{Accounts}
use backup_git_repos.Run.Progress.{ticks}
use backup_git_repos.Run.Schedule.{
  RunState, Step, skip, start, finish, Schedule, begin, later, initial, IsDone,
}
use backup_git_repos.Run.Schedule.Limit.{Schedule-concurrency, Schedule-ends}
use backup_git_repos.Run.Schedule.Totals.{Schedule-Accounts}
use backup_git_repos.Tests.{
  sample_world, sample_runner, sample_options, sample_repos, repo_x, repo_old, repo_none,
}

abbrev pub two_workers : Options
two_workers = record sample_options { concurrency = 2 }

abbrev pub limit : ℕ
limit = worker_limit two_workers 4

room : 1 < limit
unfolding worker_limit
room = omega arith

abbrev both_running : RunState
both_running = record {
  pending = repo_none ∷ [];
  running = repo_old ∷ repo_x ∷ [];
  counted = (new_counters 3, sample_world);
}

begun : Schedule sample_runner two_workers limit (initial sample_repos sample_world) 2 both_running
begun =
    later (later begin (start repo_x (repo_old ∷ repo_none ∷ []) refl refl (omega (arith, room))))
      (start repo_old (repo_none ∷ []) refl refl room)

abbrev pub counted_last : Counters × World
counted_last = reported (
    run_repo sample_runner two_workers repo_x (
      reported (
        skip_repo repo_none
          (reported (run_repo sample_runner two_workers repo_old (new_counters 3, sample_world))))))

abbrev pub all_done : RunState
all_done = record { pending = []; running = []; counted = counted_last }

ended : Schedule sample_runner two_workers limit (initial sample_repos sample_world) 5 all_done
ended =
    later
      (later (later begun (finish [] repo_old (repo_x ∷ []) refl)) (skip repo_none [] refl refl))
      (finish [] repo_x [] refl)

Schedule-concurrency_example : 2 ≤ 2
Schedule-concurrency_example =
    Schedule-concurrency sample_runner two_workers 4 sample_repos sample_world (omega arith) begun

Schedule-ends_example :
    (2 ≤ 6)
    × (IsDone both_running ⊎ ((t : RunState) × Step sample_runner two_workers limit both_running t))
Schedule-ends_example =
    Schedule-ends sample_runner two_workers 4 sample_repos sample_world (omega arith) begun

Schedule-Accounts_example :
    Accounts sample_runner two_workers sample_repos (run_result counted_last.0 0)
    × (counted_last.0.progress ≡ (1, 3) ∷ (2, 3) ∷ (3, 3) ∷ [])
unfolding ticks
Schedule-Accounts_example =
    Schedule-Accounts sample_runner two_workers sample_repos sample_world 0 ended
      (record { none_pending = refl; none_running = refl })

report_all-IsLine_example :
    (report_all (text "home") false counted_last.0.progress [] ≡ [])
    × IsLine (text "home") sample_repos (report_all (text "home") true counted_last.0.progress [])
unfolding lacks
report_all-IsLine_example =
    report_all-IsLine sample_runner two_workers sample_repos (text "home") sample_world refl ended
      (record { none_pending = refl; none_running = refl })

drawn_line :
    report_all (text "a") true ((1, 12) ∷ (12, 12) ∷ []) []
    ≡ (13 ∷ text "a: 1/12") ++ (13 ∷ text "a: 12/12") ++ 10 ∷ []
unfolding report_all report frame decimal digits
drawn_line = refl
