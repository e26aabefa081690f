-- ===== src/Run/Prune.antt =====
-- internal/backup/run.go: what `prune` leaves alone, and what it removes.
use backup_git_repos.Base.{
  Text, List, [], ◌∷◌, ◌++◌, ◌≡◌, refl, ◌∙◌, true, false, not, none, arith, ◌==◌, nat_eq, list_eq,
  list_beq_iff, All, contains, count_if, map, append-nil, append_assoc, if◌then◌else◌, Bool-cases,
  inl, inr,
}
use backup_git_repos.FilePath.{FilePath}
use backup_git_repos.Fs.{get}
use backup_git_repos.Fs.Update.{Apart, get-alter-none, get-alter-none_of_none}
use backup_git_repos.Error.{remove_op}
use backup_git_repos.World.{World, log_line, info, warn, remove_all, remove}
use backup_git_repos.World.Keeps.{get-remove_all, get-remove}
use backup_git_repos.Run.Types.{Options, mirror_path, archive_path}
use backup_git_repos.Run.Paths.{
  IsRepoPath, mirror_parts, mirror_path-parts, archive_path-parts, mirror_path-Apart, Apart-append,
}
use backup_git_repos.Run.Loop.{prune_archive, prune_one, prune}

module _ (opts : Options) where
  -- A path apart from the mirror and the archive of a stale repository.
  abbrev pub Spared : FilePath → Text → Type 0
  Spared q p = Apart (mirror_path opts.dest p) q × Apart (archive_path opts.archive_dir p) q

  prune_archive-keeps :
      (q : FilePath) (p : Text) (w : World)
      → Apart (archive_path opts.archive_dir p) q
      → get q (prune_archive opts p w).fs ≡ get q w.fs
  unfolding prune_archive log_line
  prune_archive-keeps q p w h = ground (arith, get-remove (archive_path opts.archive_dir p) q w h)

  prune_one-keeps :
      (q : FilePath) (p : Text) (w : World)
      → Spared q p
      → get q (prune_one opts p w).1.fs ≡ get q w.fs
  unfolding prune_one log_line
  prune_one-keeps q p w h =
      let w₁ = (remove_all (mirror_path opts.dest p) w).1 in
      ground (
        arith,
        get-remove_all (mirror_path opts.dest p) q w h.0,
        prune_archive-keeps q p (log_line info "pruned removed repository" p w₁) h.1,
      )

  pub prune-keeps :
      (q : FilePath) (stale : List Text) (w : World)
      → All (Spared q) stale
      → get q (prune opts stale w).1.fs ≡ get q w.fs
  unfolding prune
  prune-keeps q [] w h = refl
  prune-keeps q (p ∷ stale) w h =
      prune-keeps q stale (prune_one opts p w).1 h.1 ∙ prune_one-keeps q p w h.0

  archive_path-Apart :
      (p q : Text)
      → Apart opts.archive_dir opts.dest
      → IsRepoPath p
      → IsRepoPath q
      → Apart (archive_path opts.archive_dir p) (mirror_path opts.dest q)
  archive_path-Apart p q h k l =
      rw (archive_path-parts opts.archive_dir p k.names, mirror_path-parts opts.dest q l.names)
        (Apart-append opts.archive_dir opts.dest _ (mirror_parts q) h)

  All-Spared :
      (q : Text) (stale : List Text)
      → Apart opts.archive_dir opts.dest
      → IsRepoPath q
      → All IsRepoPath stale
      → contains stale q ≡ false
      → All (Spared (mirror_path opts.dest q)) stale
  unfolding contains
  All-Spared q [] h k a c = tt
  All-Spared q (p ∷ stale) h k a c = (
    (
      mirror_path-Apart opts.dest p q a.0 k (λ (e : p ≡ q). ground (arith, list_beq_iff p q)),
      archive_path-Apart p q h a.0 k,
    ),
    All-Spared q stale h k a.1 (ground arith),
  )

  -- A mirror whose repository is not stale is left as it was, whatever pruning removes and whatever
  -- the system refuses, where neither of the destination and the directory of the archives lies
  -- within the other, and in its path and in those of the stale ones every part before the last is a
  -- file name without the ending .git.
  pub prune-keeps-listed :
      (q : Text) (stale : List Text) (w : World)
      → Apart opts.archive_dir opts.dest
      → IsRepoPath q
      → All IsRepoPath stale
      → contains stale q ≡ false
      → get (mirror_path opts.dest q) (prune opts stale w).1.fs ≡ get (mirror_path opts.dest q) w.fs
  prune-keeps-listed q stale w h k a c =
      prune-keeps (mirror_path opts.dest q) stale w (All-Spared q stale h k a c)

  env-prune_one : (p : Text) (w : World) → (prune_one opts p w).1.env ≡ w.env
  unfolding prune_one prune_archive remove_all remove log_line
  env-prune_one p w = ground arith

  count-prune_one :
      (p : Text) (w : World)
      → opts.prune_removed ≡ true
      → (prune_one opts p w).0
        ≡ (if not (w.env.refuses remove_op (mirror_path opts.dest p)) then 1 else 0)
  unfolding prune_one remove_all
  count-prune_one p w h = ground arith

  -- With pruning on, the count is that of the stale mirrors whose removal the system allows.
  pub count-prune :
      (stale : List Text) (w : World)
      → opts.prune_removed ≡ true
      → (prune opts stale w).0
        ≡ count_if (λ (p : Text). not (w.env.refuses remove_op (mirror_path opts.dest p))) stale
  unfolding prune count_if
  count-prune [] w h = refl
  count-prune (p ∷ stale) w h =
      rw (count-prune_one p w h, count-prune stale (prune_one opts p w).1 h, env-prune_one p w)

  none-remove_all :
      (p q : FilePath) (w : World) → get q w.fs ≡ none → get q (remove_all p w).1.fs ≡ none
  unfolding remove_all
  none-remove_all p q w h = ground (arith, get-alter-none_of_none p q w.fs h)

  none-remove : (p q : FilePath) (w : World) → get q w.fs ≡ none → get q (remove p w).1.fs ≡ none
  unfolding remove
  none-remove p q w h = ground (arith, get-alter-none_of_none p q w.fs h)

  none-prune_archive :
      (q : FilePath) (p : Text) (w : World)
      → get q w.fs ≡ none
      → get q (prune_archive opts p w).fs ≡ none
  unfolding prune_archive log_line
  none-prune_archive q p w h = ground (arith, none-remove (archive_path opts.archive_dir p) q w h)

  none-prune_one :
      (q : FilePath) (p : Text) (w : World)
      → get q w.fs ≡ none
      → get q (prune_one opts p w).1.fs ≡ none
  unfolding prune_one log_line
  none-prune_one q p w h =
      let w₁ = (remove_all (mirror_path opts.dest p) w).1 in
      ground (
        arith,
        none-remove_all (mirror_path opts.dest p) q w h,
        none-prune_archive q p (log_line info "pruned removed repository" p w₁),
      )

  none-prune :
      (q : FilePath) (stale : List Text) (w : World)
      → get q w.fs ≡ none
      → get q (prune opts stale w).1.fs ≡ none
  unfolding prune
  none-prune q [] w h = h
  none-prune q (p ∷ stale) w h = none-prune q stale _ (none-prune_one q p w h)

  gone-prune_one :
      (p : Text) (w : World)
      → opts.prune_removed ≡ true
      → w.env.refuses remove_op (mirror_path opts.dest p) ≡ false
      → get (mirror_path opts.dest p) (prune_one opts p w).1.fs ≡ none
  unfolding prune_one remove_all log_line
  gone-prune_one p w h k =
      let dir = mirror_path opts.dest p in
      let w₁ = (remove_all dir w).1 in
      ground (
        arith,
        get-alter-none dir w.fs,
        none-prune_archive dir p (log_line info "pruned removed repository" p w₁),
      )

  -- With pruning on, no stale mirror is left whose removal the system allows.
  pub prune-removes :
      (p : Text) (stale : List Text) (w : World)
      → opts.prune_removed ≡ true
      → contains stale p ≡ true
      → w.env.refuses remove_op (mirror_path opts.dest p) ≡ false
      → get (mirror_path opts.dest p) (prune opts stale w).1.fs ≡ none
  unfolding prune contains
  prune-removes p [] w h c k = cc c
  prune-removes p (q ∷ stale) w h c k = elim (Bool-cases (q == p)) [
    | inl e ↦
        none-prune (mirror_path opts.dest p) stale _
          (let same : q ≡ p = (list_beq_iff q p).0 e in rw same (gone-prune_one p w h k))
    | inr e ↦
        prune-removes p stale (prune_one opts q w).1 h (ground arith) (rw (env-prune_one q w) k)
  ]

  prune_one_off :
      (p : Text) (w : World)
      → opts.prune_removed ≡ false
      → prune_one opts p w ≡ (0, log_line warn "mirror's repository no longer found on forge" p w)
  unfolding prune_one
  prune_one_off p w h = rw h

  -- With pruning off, nothing is removed or counted: each stale path gets a warning.
  pub prune_off :
      (stale : List Text) (w : World)
      → opts.prune_removed ≡ false
      → prune opts stale w ≡ (
        0,
        record w {
          log =
              w.log
              ++ map
                  (λ (p : Text). (warn, "mirror's repository no longer found on forge", p))
                  stale;
        },
      )
  unfolding prune log_line
  prune_off [] w h = rw append-nil
  prune_off (p ∷ stale) w h = rw (prune_one_off p w h) (
      rw (
        prune_off stale (log_line warn "mirror's repository no longer found on forge" p w) h,
        append_assoc,
      ))
