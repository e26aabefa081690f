-- ===== src/Mirror/Atomic.antt =====
-- internal/backup/mirror.go: what `clone` does to the mirror's place when it fails.
use backup_git_repos.Base.{Text, text, [], ◌≡◌, ◌≢◌, ◌∙◌, ap, inl, inr}
use backup_git_repos.FilePath.{FilePath, with_suffix}
use backup_git_repos.Fs.{get}
use backup_git_repos.Fs.Update.{Apart}
use backup_git_repos.Error.{Err, err}
use backup_git_repos.Error.Steps.{Result-cases}
use backup_git_repos.World.{World, remove_all, rename}
use backup_git_repos.World.Keeps.{get-remove_all, rename_failed, with_suffix-Apart}
use backup_git_repos.Run.Types.{Remote}
use backup_git_repos.Mirror.{Tools, Variables, credential_env, clone}

-- What git documents: a clone writes to the directory that it is given.
abbrev pub ClonesInPlace : Tools → Type 0
ClonesInPlace tools =
    (vars : Variables) (url : Text) (dir q : FilePath) (w : World)
    → Apart dir q
    → get q (tools.git_clone vars url dir w).1.fs ≡ get q w.fs

module _ (tools : Tools) (in_place : ClonesInPlace tools) where
  -- A clone that fails, at whichever step, leaves what stood at the mirror's path: where no mirror
  -- stood, none stands.
  pub clone_failed :
      (r : Remote) (dir : FilePath) (w : World) (e : Err)
      → dir ≢ []
      → (clone tools r dir w).0 ≡ err e
      → get dir (clone tools r dir w).1.fs ≡ get dir w.fs
  unfolding clone
  clone_failed r dir w e ne h =
      let partial = with_suffix dir (text ".partial") in
      let beside = with_suffix-Apart dir (text ".partial") ne (λ x. cc x) in
      let w₁ = (remove_all partial w).1 in
      let removed = get-remove_all partial dir w beside in
      elim (Result-cases (remove_all partial w).0) [
        | inr (x, p) ↦ rw p removed
        | inl (_, p) ↦ elim (Result-cases (credential_env tools r w₁.env)) [
          | inr (x, q) ↦ rw (p, q) removed
          | inl (vars, q) ↦
              let w₂ = (tools.git_clone vars r.clone_url partial w₁).1 in
              let cloned = in_place vars r.clone_url partial dir w₁ beside ∙ removed in
              elim (Result-cases (tools.git_clone vars r.clone_url partial w₁).0) [
                | inr (x, s) ↦ rw (p, q, s) cloned
                | inl (_, s) ↦ elim (Result-cases (rename partial dir w₂).0) [
                  | inl (_, t) ↦ cc (rw (p, q, s, t) at h)
                  | inr (x, t) ↦
                      rw (p, q, s)
                        (ap (λ (v : World). get dir v.fs) (rename_failed partial dir w₂ x t)
                          ∙ cloned)
                ]
              ]
        ]
      ]
