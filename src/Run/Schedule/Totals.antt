-- ===== src/Run/Schedule/Totals.antt =====
-- internal/backup/run.go: the counts of `Run`, in whatever order its workers end.
use backup_git_repos.Base.{
  ℕ, zero, suc, ◌+◌, ◌*◌, List, [], ◌∷◌, ◌++◌, ◌≡◌, refl, sym, ◌∙◌, ap, arith, length,
  length-append, count_if, count_if-append, true, false,
}
use backup_git_repos.World.{World}
use backup_git_repos.Repo.{Repo, wants}
use backup_git_repos.Run.Types.{Runner, Options}
use backup_git_repos.Run.Outcome.{selected}
use backup_git_repos.Run.Counts.{
  nonempty, to_archive, Moved, run_repo-Moved, skip_repo-Moved, Moved-trans,
}
use backup_git_repos.Run.Accounts.{Accounts, count-nonempty}
use backup_git_repos.Run.Progress.{ticks}
use backup_git_repos.Run.Loop.{
  Counters, new_counters, report_done, add_outcome, one_if, run_result, run_repo, skip_repo,
}
use backup_git_repos.Run.Schedule.{
  RunState, Step, skip, start, finish, Schedule, begin, later, initial, IsDone,
}

ticks-snoc : (d n total : ℕ) → ticks d n total ++ (d + n + 1, total) ∷ [] ≡ ticks d (suc n) total
unfolding ticks
ticks-snoc d zero total = ap (λ (m : ℕ). (m + 1, total) ∷ []) (omega arith)
ticks-snoc d (suc n) total =
    ap (λ (xs : List (ℕ × ℕ)). (d + 1, total) ∷ xs)
      (ap (λ (m : ℕ). ticks (d + 1) n total ++ (m, total) ∷ []) (omega arith)
        ∙ ticks-snoc (d + 1) n total)

ticks-next : (n total : ℕ) → ticks 0 n total ++ (n + 1, total) ∷ [] ≡ ticks 0 (suc n) total
ticks-next n total =
    ap (λ (m : ℕ). ticks 0 n total ++ (m, total) ∷ []) (omega arith) ∙ ticks-snoc 0 n total

-- A count that went one further, and was reported.
abbrev Reports : Counters → Counters → Type 0
Reports c d = d.progress ≡ c.progress ++ (c.done + 1, c.total) ∷ []

module _ (runner : Runner) (opts : Options) (repos : List Repo) where
  abbrev kinds : ℕ
  kinds = selected opts runner.exporters

  -- How far the counters have come, and what the pending and running repositories will add.
  record Tally (s : RunState) : Type 0 where
    e : ℕ
    n : ℕ
    a : ℕ
    moved : Moved e n a kinds (new_counters (length repos)) s.counted.0
    empties :
        e + count_if (λ (r : Repo). r.empty) s.pending ≡ count_if (λ (r : Repo). r.empty) repos
    others : n + length s.running + count_if nonempty s.pending ≡ count_if nonempty repos
    archives :
        a
          + count_if (λ (r : Repo). wants opts.archive r.archived) s.running
          + count_if (to_archive opts) s.pending
        ≡ count_if (to_archive opts) repos
    progress : s.counted.0.progress ≡ ticks 0 s.counted.0.done (length repos)

  ticks-report :
      {e n a : ℕ} (c d : Counters)
      → Moved e n a kinds (new_counters (length repos)) c
      → c.progress ≡ ticks 0 c.done (length repos)
      → Reports c d
      → d.done ≡ suc c.done
      → d.progress ≡ ticks 0 d.done (length repos)
  unfolding ticks
  ticks-report {e} {n} {a} c d moved p r q =
      r
      ∙ ap (λ (total : ℕ). c.progress ++ (c.done + 1, total) ∷ []) moved.total
      ∙ ap (λ (xs : List (ℕ × ℕ)). xs ++ (c.done + 1, length repos) ∷ []) p
      ∙ ticks-next c.done (length repos)
      ∙ ap (λ (m : ℕ). ticks 0 m (length repos)) (sym q)

  abbrev skipped : Repo → Counters × World → Counters
  skipped repo st = report_done (skip_repo repo st).0

  abbrev finished : Repo → Counters × World → Counters
  finished repo st = report_done (run_repo runner opts repo st).0

  skip-Reports :
      (repo : Repo) (st : Counters × World)
      → Reports st.0 (skipped repo st) × ((skipped repo st).done ≡ suc st.0.done)
  unfolding report_done skip_repo
  skip-Reports repo st = (refl, omega arith)

  finish-Reports :
      (repo : Repo) (st : Counters × World)
      → Reports st.0 (finished repo st) × ((finished repo st).done ≡ suc st.0.done)
  unfolding report_done run_repo add_outcome
  finish-Reports repo st = (refl, omega arith)

  skip-Tally :
      (s : RunState) (repo : Repo) (rest : List Repo)
      → s.pending ≡ repo ∷ rest
      → repo.empty ≡ true
      → Tally s
      → Tally (record {
        pending = rest;
        running = s.running;
        counted = (skipped repo s.counted, (skip_repo repo s.counted).1);
      })
  unfolding count_if
  skip-Tally s repo rest p h t = record {
    e = t.e + 1;
    n = t.n + 0;
    a = t.a + 0;
    moved =
        Moved-trans runner opts t.e t.n t.a 1 0 0 kinds t.moved
          (skip_repo-Moved runner opts repo s.counted.0 s.counted.1);
    empties = ground (arith, ap (count_if (λ (r : Repo). r.empty)) p);
    others = ground (arith, ap (count_if nonempty) p);
    archives = ground (arith, ap (count_if (to_archive opts)) p);
    progress =
        let (r, q) = skip-Reports repo s.counted in
        ticks-report s.counted.0 (skipped repo s.counted) t.moved t.progress r q;
  }

  start-Tally :
      (s : RunState) (repo : Repo) (rest : List Repo)
      → s.pending ≡ repo ∷ rest
      → repo.empty ≡ false
      → Tally s
      → Tally (record { pending = rest; running = repo ∷ s.running; counted = s.counted })
  unfolding count_if
  start-Tally s repo rest p h t = record {
    e = t.e;
    n = t.n;
    a = t.a;
    moved = t.moved;
    empties = ground (arith, ap (count_if (λ (r : Repo). r.empty)) p);
    others = ground (arith, ap (count_if nonempty) p);
    archives = ground (arith, ap (count_if (to_archive opts)) p);
    progress = t.progress;
  }

  finish-Tally :
      (s : RunState) (before : List Repo) (repo : Repo) (after : List Repo)
      → s.running ≡ before ++ repo ∷ after
      → Tally s
      → Tally (record {
        pending = s.pending;
        running = before ++ after;
        counted = (finished repo s.counted, (run_repo runner opts repo s.counted).1);
      })
  unfolding count_if
  finish-Tally s before repo after p t =
      let to_be = λ (r : Repo). wants opts.archive r.archived in
      record {
        e = t.e + 0;
        n = t.n + 1;
        a = t.a + one_if (wants opts.archive repo.archived);
        moved =
            Moved-trans runner opts t.e t.n t.a 0 1 (one_if (wants opts.archive repo.archived))
              kinds t.moved (run_repo-Moved runner opts repo s.counted.0 s.counted.1);
        empties = omega (arith, t.empties);
        others = omega (
          arith,
          t.others,
          ap length p,
          length-append before (repo ∷ after),
          length-append before after,
        );
        archives = omega (
          arith,
          t.archives,
          ap (count_if to_be) p,
          count_if-append to_be before (repo ∷ after),
          count_if-append to_be before after,
        );
        progress =
            let (r, q) = finish-Reports repo s.counted in
            ticks-report s.counted.0 (finished repo s.counted) t.moved t.progress r q;
      }

  Step-Tally : {limit : ℕ} {s t : RunState} → Tally s → Step runner opts limit s t → Tally t
  Step-Tally {s = s} t (skip repo rest p e) = skip-Tally s repo rest p e t
  Step-Tally {s = s} t (start repo rest p e free) = start-Tally s repo rest p e t
  Step-Tally {s = s} t (finish before repo after p) = finish-Tally s before repo after p t

  Schedule-Tally :
      (w : World) {limit n : ℕ} {s : RunState}
      → Schedule runner opts limit (initial repos w) n s
      → Tally s
  unfolding count_if ticks
  Schedule-Tally w begin = record {
    e = 0;
    n = 0;
    a = 0;
    moved = omega arith;
    empties = omega arith;
    others = omega arith;
    archives = omega arith;
    progress = refl;
  }
  Schedule-Tally w (later before step) = Step-Tally (Schedule-Tally w before) step

  -- In whatever order the workers start and end, the counts account for every repository of the
  -- listing once all is done, and the progress callback has heard of each once, in order.
  pub Schedule-Accounts :
      (w : World) (pruned : ℕ) {limit n : ℕ} {s : RunState}
      → Schedule runner opts limit (initial repos w) n s
      → IsDone s
      → Accounts runner opts repos (run_result s.counted.0 pruned)
        × (s.counted.0.progress ≡ ticks 0 (length repos) (length repos))
  unfolding count_if
  Schedule-Accounts w pruned {s = s} sched done =
      let t = Schedule-Tally w sched in
      let empties : t.e ≡ count_if (λ (r : Repo). r.empty) repos =
        omega (arith, t.empties, ap (count_if (λ (r : Repo). r.empty)) done.none_pending) in
      let others : t.n ≡ count_if nonempty repos =
        omega (
          arith,
          t.others,
          ap (count_if nonempty) done.none_pending,
          ap length done.none_running,
        ) in
      let archives : t.a ≡ count_if (to_archive opts) repos = omega (
        arith,
        t.archives,
        ap (count_if (to_archive opts)) done.none_pending,
        ap (count_if (λ (r : Repo). wants opts.archive r.archived)) done.none_running,
      ) in
      let every : s.counted.0.done ≡ length repos =
        omega (arith, t.moved, empties, others, count-nonempty repos) in
      (
        omega (
          arith,
          t.moved,
          empties,
          others,
          archives,
          count-nonempty repos,
          ap (λ (m : ℕ). m * kinds) others,
        ),
        t.progress ∙ ap (λ (m : ℕ). ticks 0 m (length repos)) every,
      )
