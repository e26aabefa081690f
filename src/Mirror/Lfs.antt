-- ===== src/Mirror/Lfs.antt =====
-- internal/backup/mirror_lfs.go: when `syncLFS` asks for git-lfs.
use backup_git_repos.Base.{
  Text, text, List, [], ◌∷◌, list_eq, nat_eq, list_beq, ◌≡◌, refl, ap, true,
}
use backup_git_repos.FilePath.{FilePath}
use backup_git_repos.Error.{ok, err, wrap, git_lfs_not_found}
use backup_git_repos.World.{World}
use backup_git_repos.Run.Types.{Remote}
use backup_git_repos.Mirror.{
  Tools, Mirror, GrepExit, found, git_env, trim_space, ref_tips, grep_lfs, uses_lfs, sync_lfs,
  fetch_lfs, find_tool,
}

module _ (tools : Tools) where
  -- A mirror without a ref succeeds, whatever git grep, git-lfs and the credentials would do: none
  -- of them is asked.
  pub sync_lfs_no_refs :
      (m : Mirror) (r : Remote) (dir : FilePath) (w w' : World) (out : Text)
      → tools.git_refs (git_env w.env) dir w ≡ (ok out, w')
      → trim_space out ≡ []
      → sync_lfs tools m r dir w ≡ (ok tt, w')
  unfolding sync_lfs uses_lfs ref_tips grep_lfs fetch_lfs list_beq
  sync_lfs_no_refs m r dir w w' out h k = rw (h, k) refl

  grep_lfs-found :
      (dir : FilePath) (w w' : World) (refs : List Text) (ref : Text)
      → tools.git_grep (git_env w.env) dir (ref ∷ refs) w ≡ (found, w')
      → grep_lfs tools dir (ref ∷ refs) w ≡ (ok true, w')
  unfolding grep_lfs
  grep_lfs-found dir w w' refs ref h =
      rw (h, grep_lfs) (ap (λ (p : GrepExit × World). (ok true, p.1)) h)

  uses-found :
      (dir : FilePath) (w w₁ w₂ : World) (refs : List Text) (ref : Text)
      → ref_tips tools dir w ≡ (ok (ref ∷ refs), w₁)
      → tools.git_grep (git_env w₁.env) dir (ref ∷ refs) w₁ ≡ (found, w₂)
      → uses_lfs tools dir w ≡ (ok true, w₂)
  unfolding uses_lfs
  uses-found dir w w₁ w₂ refs ref h k = rw h (grep_lfs-found dir w₁ w₂ refs ref k)

  -- Where git grep finds LFS in use and git-lfs is neither configured nor on PATH, the mirror is
  -- refused with git-lfs missing, and nothing runs after the grep.
  sync_lfs_missing :
      (m : Mirror) (r : Remote) (dir : FilePath) (w w₁ w₂ : World) (refs : List Text) (ref : Text)
      → ref_tips tools dir w ≡ (ok (ref ∷ refs), w₁)
      → tools.git_grep (git_env w₁.env) dir (ref ∷ refs) w₁ ≡ (found, w₂)
      → find_tool m.git_lfs_path (text "git-lfs") git_lfs_not_found w₂.env ≡ err git_lfs_not_found
      → sync_lfs tools m r dir w ≡ (err (wrap (text "mirror lfs") git_lfs_not_found), w₂)
  unfolding sync_lfs fetch_lfs
  sync_lfs_missing m r dir w w₁ w₂ refs ref h k l =
      rw (uses-found dir w w₁ w₂ refs ref h k) (simp l)
