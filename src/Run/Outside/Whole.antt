-- ===== src/Run/Outside/Whole.antt =====
-- internal/backup/run.go: what a whole run leaves alone.
use backup_git_repos.Base.{
  Text, List, [], ◌∷◌, ◌≡◌, refl, ◌∙◌, ap, arith, inl, inr, All, Bool-cases, length,
}
use backup_git_repos.FilePath.{FilePath}
use backup_git_repos.Fs.{get}
use backup_git_repos.Error.{Result, ok}
use backup_git_repos.World.{World, log_line}
use backup_git_repos.World.Near.{Near, Near-trans, Apart-below}
use backup_git_repos.Repo.{Repo, State, state_all, state_eq}
use backup_git_repos.Run.Types.{Runner, Options}
use backup_git_repos.Run.Scan.{stale_mirrors}
use backup_git_repos.Run.Loop.{
  Counters, new_counters, run_repo, skip_repo, reported, mirror_all, full_listing, list_repos,
  run_listed, run,
}
use backup_git_repos.Run.Paths.{mirror_path-parts, archive_path-parts}
use backup_git_repos.Run.Prune.{Spared, prune-keeps}
use backup_git_repos.Run.Outside.{IsConfined, IsNamed, IsOutside, moved-IsOutside, mirror_repo-Near}

-- No repository's path leads out of the destination.
abbrev pub AllNamed : List Repo → Type 0
AllNamed = All (λ (r : Repo). IsNamed r.path)

module _ (runner : Runner) (confined : IsConfined runner) (opts : Options) (q : FilePath) where
  list_repos-Near : (state : State) (w : World) → Near q (list_repos runner state w).1 w
  unfolding list_repos full_listing
  list_repos-Near state w =
      let w₁ = (runner.list_repos state w).1 in
      let first = confined.lists state q w in
      let second = confined.lists state_all q w₁ in
      ground (arith, first.0, first.1, second.0, second.1)

  run_repo-Near :
      (repo : Repo) (c : Counters) (w : World)
      → IsNamed repo.path
      → IsOutside opts q w
      → Near q (run_repo runner opts repo (c, w)).1 w
  unfolding run_repo
  run_repo-Near repo c w named out =
      mirror_repo-Near runner confined opts q repo named out.dest w out

  mirror_all-Near :
      (repos : List Repo) (c : Counters) (w : World)
      → AllNamed repos
      → IsOutside opts q w
      → Near q (mirror_all runner opts repos (c, w)).1 w
  unfolding mirror_all skip_repo log_line
  mirror_all-Near [] c w h out = (refl, refl)
  mirror_all-Near (repo ∷ repos) c w h out = elim (Bool-cases repo.empty) [
    | inl e ↦
        let (c', w') = skip_repo repo (c, w) in
        simp e (
          mirror_all-Near repos (reported (c', w')).0 w' h.1
            (moved-IsOutside runner confined opts q w' w (refl, refl) out))
    | inr e ↦
        let (c', w') = run_repo runner opts repo (c, w) in
        let here = run_repo-Near repo c w h.0 out in
        simp e (
          Near-trans q (mirror_all runner opts repos (reported (c', w'))).1 w' w
            (mirror_all-Near repos (reported (c', w')).0 w' h.1
              (moved-IsOutside runner confined opts q w' w here out))
            here)
  ]

  All-Spared :
      (stale : List Text) (w : World)
      → IsOutside opts q w
      → All IsNamed stale
      → All (Spared opts q) stale
  All-Spared [] w out h = tt
  All-Spared (p ∷ stale) w out h = (
    (
      rw (mirror_path-parts opts.dest p h.0) (Apart-below opts.dest _ q out.dest),
      rw (archive_path-parts opts.archive_dir p h.0)
          (Apart-below opts.archive_dir _ q out.archive_dir),
    ),
    All-Spared stale w out h.1,
  )

  -- A run changes nothing outside the destination, the directory of the archives and its scratch
  -- directory, whatever fails and whatever it prunes. The runner keeps to what it is given, and no
  -- repository's path leads out of the destination.
  pub run_outside :
      (w w₁ : World) (repos canonical : List Repo) (stale : List Text)
      → list_repos runner opts.state w ≡ (ok (repos, canonical), w₁)
      → stale_mirrors opts.dest opts.archive_dir canonical w₁ ≡ ok stale
      → AllNamed repos
      → All IsNamed stale
      → IsOutside opts q w
      → get q (run runner opts w).1.fs ≡ get q w.fs
  unfolding run run_listed
  run_outside w w₁ repos canonical stale listed scanned named stale_named out =
      let c = new_counters (length repos) in
      let before : Near q w₁ w =
        rw (ap (λ (p : Result (List Repo × List Repo) × World). p.1) listed) at
          (list_repos-Near opts.state w) in
      let out₁ = moved-IsOutside runner confined opts q w₁ w before out in
      let w₂ = (mirror_all runner opts repos (c, w₁)).1 in
      let mirrored = mirror_all-Near repos c w₁ named out₁ in
      rw (listed, scanned)
        (prune-keeps opts q stale w₂ (All-Spared stale w₁ out₁ stale_named) ∙ mirrored.0 ∙ before.0)
