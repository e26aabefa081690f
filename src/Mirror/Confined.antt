-- ===== src/Mirror/Confined.antt =====
-- internal/backup/mirror.go, mirror_lfs.go: `Sync` keeps to the mirror's path and the one beside it.
use backup_git_repos.Base.{
  Text, text, List, [], ◌∷◌, Bool, true, false, refl, arith, inl, inr, Bool-cases,
}
use backup_git_repos.FilePath.{FilePath, with_suffix}
use backup_git_repos.Fs.Update.{Apart}
use backup_git_repos.Error.{git_not_found, git_lfs_not_found}
use backup_git_repos.Error.Steps.{Result-cases}
use backup_git_repos.World.{World, remove_all, rename}
use backup_git_repos.World.Near.{
  Near, Near-trans, remove_all-Near, rename-Near, Apart-below, with_suffix-append,
}
use backup_git_repos.Run.Types.{Remote}
use backup_git_repos.Run.Outside.{StaysBelow}
use backup_git_repos.Mirror.{
  Tools, Mirror, Variables, find_tool, credential_env, git_env, clone, update, ref_tips, grep_lfs,
  uses_lfs, fetch_lfs, sync_lfs, has_head, refresh, sync,
}

-- What git and git-lfs document: they write to the repository that they are told to work in.
pub record WorksInPlace (tools : Tools) : Type 0 where
  pub clones :
      (vars : Variables) (url : Text) (dir q : FilePath) (w : World)
      → Apart dir q
      → Near q (tools.git_clone vars url dir w).1 w
  pub updates :
      (vars : Variables) (dir q : FilePath) (w : World)
      → Apart dir q
      → Near q (tools.git_update vars dir w).1 w
  pub lists :
      (vars : Variables) (dir q : FilePath) (w : World)
      → Apart dir q
      → Near q (tools.git_refs vars dir w).1 w
  pub greps :
      (vars : Variables) (dir : FilePath) (refs : List Text) (q : FilePath) (w : World)
      → Apart dir q
      → Near q (tools.git_grep vars dir refs w).1 w
  pub fetches :
      (vars : Variables) (dir q : FilePath) (w : World)
      → Apart dir q
      → Near q (tools.lfs_fetch vars dir w).1 w

module _ (tools : Tools) (works : WorksInPlace tools) (r : Remote) (dir q : FilePath)
    (far : Apart dir q) where
  update-Near : (w : World) → Near q (update tools r dir w).1 w
  unfolding update
  update-Near w = elim (Result-cases (credential_env tools r w.env)) [
    | inr (e, p) ↦ rw p (refl, refl)
    | inl (vars, p) ↦ rw p (works.updates vars dir q w far)
  ]

  clone-Near :
      (w : World) → Apart (with_suffix dir (text ".partial")) q → Near q (clone tools r dir w).1 w
  unfolding clone
  clone-Near w apart =
      let partial = with_suffix dir (text ".partial") in
      let w₁ = (remove_all partial w).1 in
      let first = remove_all-Near q partial w apart in
      elim (Result-cases (remove_all partial w).0) [
        | inr (e, p) ↦ rw p first
        | inl (_, p) ↦ elim (Result-cases (credential_env tools r w₁.env)) [
          | inr (e, v) ↦ rw (p, v) first
          | inl (vars, v) ↦
              let w₂ = (tools.git_clone vars r.clone_url partial w₁).1 in
              let cloned =
                Near-trans q w₂ w₁ w (works.clones vars r.clone_url partial q w₁ apart) first in
              elim (Result-cases (tools.git_clone vars r.clone_url partial w₁).0) [
                | inr (e, s) ↦ rw (p, v, s) cloned
                | inl (_, s) ↦
                    rw (p, v, s)
                      (Near-trans q (rename partial dir w₂).1 w₂ w
                        (rename-Near q partial dir w₂ apart far) cloned)
              ]
        ]
      ]

  ref_tips-Near : (w : World) → Near q (ref_tips tools dir w).1 w
  unfolding ref_tips
  ref_tips-Near w =
      let listed = works.lists (git_env w.env) dir q w far in ground (arith, listed.0, listed.1)

  grep_lfs-Near : (refs : List Text) (w : World) → Near q (grep_lfs tools dir refs w).1 w
  unfolding grep_lfs
  grep_lfs-Near [] w = (refl, refl)
  grep_lfs-Near (ref ∷ refs) w =
      let grepped = works.greps (git_env w.env) dir (ref ∷ refs) q w far in
      ground (arith, grepped.0, grepped.1)

  fetch_lfs-Near :
      (m : Mirror) (uses : Bool) (w : World) → Near q (fetch_lfs tools m r dir uses w).1 w
  unfolding fetch_lfs
  fetch_lfs-Near m false w = (refl, refl)
  fetch_lfs-Near m true w =
      elim (Result-cases (find_tool m.git_lfs_path (text "git-lfs") git_lfs_not_found w.env)) [
        | inr (e, p) ↦ rw p (refl, refl)
        | inl (_, p) ↦ elim (Result-cases (credential_env tools r w.env)) [
          | inr (e, v) ↦ rw (p, v) (refl, refl)
          | inl (vars, v) ↦ rw (p, v) (works.fetches vars dir q w far)
        ]
      ]

  sync_lfs-Near : (m : Mirror) (w : World) → Near q (sync_lfs tools m r dir w).1 w
  unfolding sync_lfs uses_lfs
  sync_lfs-Near m w =
      let w₁ = (ref_tips tools dir w).1 in
      let tips = ref_tips-Near w in
      elim (Result-cases (ref_tips tools dir w).0) [
        | inr (e, p) ↦ rw p tips
        | inl (refs, p) ↦
            let w₂ = (grep_lfs tools dir refs w₁).1 in
            let grepped = Near-trans q w₂ w₁ w (grep_lfs-Near refs w₁) tips in
            elim (Result-cases (grep_lfs tools dir refs w₁).0) [
              | inr (e, g) ↦ rw (p, g) grepped
              | inl (uses, g) ↦
                  rw (p, g)
                    (Near-trans q (fetch_lfs tools m r dir uses w₂).1 w₂ w
                      (fetch_lfs-Near m uses w₂) grepped)
            ]
      ]

  refresh-Near :
      (w : World) → Apart (with_suffix dir (text ".partial")) q → Near q (refresh tools r dir w).1 w
  unfolding refresh
  refresh-Near w apart = elim (Bool-cases (has_head tools dir w)) [
    | inl e ↦ rw e (update-Near w)
    | inr e ↦ rw e (clone-Near w apart)
  ]

  sync-Near :
      (m : Mirror) (w : World)
      → Apart (with_suffix dir (text ".partial")) q
      → Near q (sync tools m r dir w).1 w
  unfolding sync
  sync-Near m w apart =
      let w₁ = (refresh tools r dir w).1 in
      let refreshed = refresh-Near w apart in
      elim (Result-cases (find_tool m.git_path (text "git") git_not_found w.env)) [
        | inr (e, p) ↦ rw p (refl, refl)
        | inl (_, p) ↦ elim (Result-cases (refresh tools r dir w).0) [
          | inr (e, s) ↦ rw (p, s) refreshed
          | inl (_, s) ↦
              rw (p, s)
                (Near-trans q (sync_lfs tools m r dir w₁).1 w₁ w (sync_lfs-Near m w₁) refreshed)
        ]
      ]

-- `Sync` changes nothing apart from a directory above the mirror, whether it clones or updates.
pub sync-StaysBelow :
    (tools : Tools) (m : Mirror) (r : Remote) → WorksInPlace tools → StaysBelow (sync tools m r)
sync-StaysBelow tools m r works dir root rest q w below ne far =
    let apart : Apart (with_suffix dir (text ".partial")) q =
      rw (below, with_suffix-append root rest (text ".partial") ne) (Apart-below root _ q far) in
    sync-Near tools works r dir q (rw below (Apart-below root rest q far)) m w apart
