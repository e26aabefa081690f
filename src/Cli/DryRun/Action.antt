-- ===== src/Cli/DryRun/Action.antt =====
-- The action that a dry run prints against the one that Sync takes.
use backup_git_repos.Base.{
  Text, text, Bool, true, false, ◌&&◌, [], ◌∷◌, ◌++◌, ◌≡◌, ◌⊎◌, refl, inl, inr,
}
use backup_git_repos.Fs.{Node}
use backup_git_repos.FilePath.{FilePath, join}
use backup_git_repos.Error.{Err, ok, err}
use backup_git_repos.Error.Steps.{Result-cases}
use backup_git_repos.World.{World, stat}
use backup_git_repos.Repo.{Repo}
use backup_git_repos.Run.Types.{Remote, mirror_path}
use backup_git_repos.Mirror.{Tools, has_head, refresh, clone, update}
use backup_git_repos.Cli.DryRun.{dry_run_action}

has_head-there :
    (tools : Tools) (dir : FilePath) (w : World) (n : Node)
    → (stat (dir ++ text "HEAD" ∷ []) w).0 ≡ ok n
    → has_head tools dir w ≡ true
unfolding has_head
has_head-there tools dir w n p = rw (p, has_head) refl

has_head-missing :
    (tools : Tools) (dir : FilePath) (w : World) (e : Err)
    → (stat (dir ++ text "HEAD" ∷ []) w).0 ≡ err e
    → has_head tools dir w ≡ false
unfolding has_head
has_head-missing tools dir w e p = rw (p, has_head) refl

refresh-there :
    (tools : Tools) (remote : Remote) (dir : FilePath) (w : World) (n : Node)
    → (stat (dir ++ text "HEAD" ∷ []) w).0 ≡ ok n
    → refresh tools remote dir w ≡ update tools remote dir w
unfolding refresh
refresh-there tools remote dir w n p = rw (has_head-there tools dir w n p) refl

refresh-missing :
    (tools : Tools) (remote : Remote) (dir : FilePath) (w : World) (e : Err)
    → (stat (dir ++ text "HEAD" ∷ []) w).0 ≡ err e
    → refresh tools remote dir w ≡ clone tools remote dir w
unfolding refresh
refresh-missing tools remote dir w e p = rw (has_head-missing tools dir w e p) refl

-- Unless an archived repository goes to a scratch directory, the printed action is the one that
-- Sync's choice between clone and update comes to, on the disk as it is.
pub dry_run_action-refresh :
    (tools : Tools) (remote : Remote) (dest : FilePath) (forge : Text) (repo : Repo)
    (want_archive : Bool) (w : World)
    → repo.archived && want_archive ≡ false
    → let dir = mirror_path (join dest forge) repo.path in
      ((dry_run_action dest forge repo want_archive w ≡ text "update")
        × (refresh tools remote dir w ≡ update tools remote dir w))
      ⊎ ((dry_run_action dest forge repo want_archive w ≡ text "clone")
          × (refresh tools remote dir w ≡ clone tools remote dir w))
unfolding dry_run_action
dry_run_action-refresh tools remote dest forge repo want_archive w h =
    let dir = mirror_path (join dest forge) repo.path in
    elim (Result-cases (stat (mirror_path (join dest forge) repo.path ++ text "HEAD" ∷ []) w).0) [
      | inl (n, p) ↦ inl (rw (h, p) refl, refresh-there tools remote dir w n p)
      | inr (e, p) ↦ inr (rw (h, p) refl, refresh-missing tools remote dir w e p)
    ]
