-- ===== src/Run/Schedule/Limit.antt =====
-- internal/backup/run.go: the limit on the workers of `Run`, and the end of its loop.
use backup_git_repos.Base.{
  ℕ, suc, ◌+◌, ◌*◌, ◌≤◌, ◌<◌, List, [], ◌∷◌, ◌++◌, ◌≡◌, ◌⊎◌, inl, inr, refl, ap, arith, length,
  length-append, Bool-cases,
}
use backup_git_repos.World.{World}
use backup_git_repos.Repo.{Repo}
use backup_git_repos.Run.Types.{Runner, Options}
use backup_git_repos.Run.Loop.{worker_limit}
use backup_git_repos.Run.Schedule.{
  RunState, Step, skip, start, finish, Schedule, begin, later, initial, IsDone,
}

-- What is left to do: to start each pending repository and to finish each one.
abbrev pub work : RunState → ℕ
work s = 2 * length s.pending + length s.running

length-middle :
    (before after : List Repo) (repo : Repo)
    → length (before ++ repo ∷ after) ≡ suc (length (before ++ after))
length-middle before after repo =
    omega (arith, length-append before (repo ∷ after), length-append before after)

worker_limit-set :
    (opts : Options) (processors : ℕ)
    → 1 ≤ opts.concurrency
    → worker_limit opts processors ≡ opts.concurrency
unfolding worker_limit
worker_limit-set opts processors h = ground arith

worker_limit-positive :
    (opts : Options) (processors : ℕ) → 1 ≤ processors → 1 ≤ worker_limit opts processors
unfolding worker_limit
worker_limit-positive opts processors h = ground arith

module _ {runner : Runner} {opts : Options} {limit : ℕ} where
  Step-work : {s t : RunState} → Step runner opts limit s t → work t < work s
  Step-work (skip repo rest p e) = omega (arith, ap length p)
  Step-work (start repo rest p e free) = omega (arith, ap length p)
  Step-work (finish before repo after p) =
      omega (arith, ap length p, length-middle before after repo)

  Step-limit :
      {s t : RunState}
      → length s.running ≤ limit
      → Step runner opts limit s t
      → length t.running ≤ limit
  Step-limit h (skip repo rest p e) = h
  Step-limit h (start repo rest p e free) = omega (arith, free)
  Step-limit h (finish before repo after p) =
      omega (arith, h, ap length p, length-middle before after repo)

  -- Never are more workers running than the limit allows.
  pub Schedule-limit :
      (repos : List Repo) (w : World) {n : ℕ} {s : RunState}
      → Schedule runner opts limit (initial repos w) n s
      → length s.running ≤ limit
  Schedule-limit repos w begin = omega arith
  Schedule-limit repos w (later before step) = Step-limit (Schedule-limit repos w before) step

  pending_steps :
      (s : RunState) (repo : Repo) (rest : List Repo)
      → 1 ≤ limit
      → s.pending ≡ repo ∷ rest
      → s.running ≡ []
      → (t : RunState) × Step runner opts limit s t
  pending_steps s repo rest h p q = elim (Bool-cases repo.empty) [
    | inl e ↦ (_, skip repo rest p e)
    | inr e ↦ (_, start repo rest p e (omega (arith, ap length q, h)))
  ]

  no_deadlock :
      (s : RunState) (pending running : List Repo)
      → 1 ≤ limit
      → s.pending ≡ pending
      → s.running ≡ running
      → IsDone s ⊎ ((t : RunState) × Step runner opts limit s t)
  no_deadlock s pending (repo ∷ after) h p q = inr (_, finish [] repo after q)
  no_deadlock s [] [] h p q = inl (record { none_pending = p; none_running = q })
  no_deadlock s (repo ∷ rest) [] h p q = inr (pending_steps s repo rest h p q)

  bounded_from :
      (repos : List Repo) (w : World) {n : ℕ} {s : RunState}
      → Schedule runner opts limit (initial repos w) n s
      → n + work s ≤ 2 * length repos
  bounded_from repos w begin = omega arith
  bounded_from repos w (later before step) =
      omega (arith, bounded_from repos w before, Step-work step)

-- With a concurrency of at least one, never are more workers running than it says.
pub Schedule-concurrency :
    (runner : Runner) (opts : Options) (processors : ℕ) (repos : List Repo) (w : World) {n : ℕ}
    {s : RunState}
    → 1 ≤ opts.concurrency
    → Schedule runner opts (worker_limit opts processors) (initial repos w) n s
    → length s.running ≤ opts.concurrency
Schedule-concurrency runner opts processors repos w h sched =
    omega (arith, Schedule-limit repos w sched, worker_limit-set opts processors h)

-- On a machine with a processor, the loop cannot get stuck and comes to its end: unless all is done
-- a step can be taken, and no more than two are for each repository.
pub Schedule-ends :
    (runner : Runner) (opts : Options) (processors : ℕ) (repos : List Repo) (w : World) {n : ℕ}
    {s : RunState}
    → 1 ≤ processors
    → Schedule runner opts (worker_limit opts processors) (initial repos w) n s
    → (n ≤ 2 * length repos)
      × (IsDone s ⊎ ((t : RunState) × Step runner opts (worker_limit opts processors) s t))
Schedule-ends runner opts processors repos w {s = s} h sched = (
  omega (arith, bounded_from repos w sched),
  no_deadlock s s.pending s.running (worker_limit-positive opts processors h) refl refl,
)
