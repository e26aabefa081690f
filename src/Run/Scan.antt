-- ===== src/Run/Scan.antt =====
-- internal/backup/run.go: the walks over the destination and the archive directory, and the
-- repositories that are found there but no longer listed.
use backup_git_repos.Base.{
  Text, text, List, [], ◌∷◌, ◌++◌, Bool, true, false, ◌&&◌, ◌||◌, not, none, some, nat_eq, list_eq,
  contains, if◌then◌else◌, cut_suffix, join_with, sort, map,
}
use backup_git_repos.FilePath.{FilePath}
use backup_git_repos.Fs.{Node, dir, Entries, end, entry, is_dir}
use backup_git_repos.Error.{os_error, list_op, Result, ok, err, wrap, is_not_exist}
use backup_git_repos.Error.Steps
use backup_git_repos.World.{World, Env, wrap_result, settle, stat}
use backup_git_repos.Repo.{Repo}

-- The walk of `onDiskPaths`. A matching directory is not descended into.
unfoldable pub is_mirror_dir : Node → Bool
is_mirror_dir n = is_dir n

unfoldable pub is_archive_file : Node → Bool
is_archive_file n = not (is_dir n)

unfoldable pub has_suffix : Text → Text → Bool
has_suffix s suffix = elim (cut_suffix s suffix) [ none ↦ false | some r ↦ true ]

unfoldable pub trim_suffix : Text → Text → Text
trim_suffix s suffix = elim (cut_suffix s suffix) [ none ↦ s | some r ↦ r ]

module _ (env : Env) (root : FilePath) (suffix : Text) (keep : Node → Bool) where
  unfoldable pub matches : Text → Node → Bool
  matches name n = has_suffix name suffix && keep n

  unfoldable pub on_disk : FilePath → Entries → Result (List Text)
  on_disk rel end = ok []
  on_disk rel (entry name (dir es) rest) =
      let path = rel ++ name ∷ [] in
      let below = on_disk path es in
      let others = on_disk rel rest in
      if matches name (dir es)
      then Steps.◌>>=◌ others (λ more. ok (trim_suffix (join_with b'/' path) suffix ∷ more))
      else if env.refuses list_op (root ++ path)
      then err (os_error list_op (root ++ path))
      else Steps.◌>>=◌ below (λ inside. Steps.◌>>=◌ others λ more. ok (inside ++ more))
  on_disk rel (entry name n rest) =
      let others = on_disk rel rest in
      if matches name n
      then Steps.◌>>=◌ others
          (λ more. ok (trim_suffix (join_with b'/' (rel ++ name ∷ [])) suffix ∷ more))
      else others

  unfoldable pub walk_root : Node → Result (List Text)
  walk_root (dir es) =
      if env.refuses list_op root then err (os_error list_op root) else on_disk [] es
  walk_root n = ok []

unfoldable pub on_disk_paths : FilePath → Text → (Node → Bool) → World → Result (List Text)
on_disk_paths root suffix keep w =
    settle (stat root w).0 (λ e. if is_not_exist e then ok [] else err (wrap (text "stat") e))
      (λ n. wrap_result (text "walk") (walk_root w.env root suffix keep n))

-- The loop of `staleMirrors`: what is neither listed nor seen before.
unfoldable pub keep_stale : List Text → List Text → List Text → List Text
keep_stale wanted seen [] = []
keep_stale wanted seen (path ∷ paths) =
    let skipped = keep_stale wanted seen paths in
    let kept = keep_stale wanted (path ∷ seen) paths in
    if contains wanted path || contains seen path then skipped else path ∷ kept

-- The two scans run side by side; where both fail, the first one's error is reported here.
unfoldable pub stale_mirrors : FilePath → FilePath → List Repo → World → Result (List Text)
stale_mirrors dest archive_dir repos w = wrap_result (text "scan for stale mirrors") (
    Steps.◌>>=◌ (on_disk_paths dest (text ".git") is_mirror_dir w) λ mirrors.
      Steps.◌>>=◌ (on_disk_paths archive_dir (text ".tar.gz") is_archive_file w) λ archives.
        ok (sort (keep_stale (map (λ (r : Repo). r.path) repos) [] (mirrors ++ archives))))
