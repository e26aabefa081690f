-- ===== src/Archive/Near.antt =====
-- internal/backup/archive.go: what archiving leaves alone.
use backup_git_repos.Base.{text, [], ◌++◌, ◌≡◌, ◌≢◌, refl, ◌∙◌, some, false, inl, inr}
use backup_git_repos.FilePath.{FilePath, base, with_suffix, dir_of}
use backup_git_repos.Fs.{dir}
use backup_git_repos.Fs.Update.{at_or_above, Apart}
use backup_git_repos.Error.Steps.{Result-cases}
use backup_git_repos.World.{World, write_file, mkdir_all, rename, remove}
use backup_git_repos.World.Keeps.{write_file-env}
use backup_git_repos.World.Near.{
  Near, Near-trans, mkdir_all-Near, rename-Near, remove-Near, Apart-below, dir_of-append,
  with_suffix-append,
}
use backup_git_repos.Archive.{
  open_root, sorted_paths, write_entries, close_archive, write_archive, archive, archive_repo,
}
use backup_git_repos.Archive.Atomic.{open_root-world, write_archive-keeps}

module _ (path : FilePath) where
  write_archive-env : (out : FilePath) (w : World) → (write_archive path out w).1.env ≡ w.env
  unfolding write_archive close_archive
  write_archive-env out w = elim (Result-cases (open_root path w).0) [
    | inr (e, p) ↦ rw (p, open_root-world path w) refl
    | inl (es, p) ↦ elim (Result-cases (sorted_paths w.env path es)) [
      | inr (e, s) ↦ rw (p, open_root-world path w, s) refl
      | inl (paths, s) ↦
          let w₁ = (write_file out [] w).1 in
          let created = write_file-env out [] w in
          elim (Result-cases (write_file out [] w).0) [
            | inr (e, c) ↦ rw (p, open_root-world path w, s, c) created
            | inl (done, c) ↦
                elim (Result-cases (write_entries w₁.env path (some (dir es)) (base path) paths)) [
                  | inr (e, r) ↦ rw (p, open_root-world path w, s, c, r) created
                  | inl (entries, r) ↦
                      rw (p, open_root-world path w, s, c, r) (write_file-env out _ w₁ ∙ created)
                ]
          ]
    ]
  ]

  module _ (root rest q : FilePath) (ne : rest ≢ []) (far : Apart root q) where
    abbrev out : FilePath
    out = root ++ rest

    archive-Near : (w : World) → Near q (archive path out w).1 w
    unfolding archive
    archive-Near w =
        let tmp = with_suffix out (text ".tmp") in
        let apart : Apart tmp q =
          rw (with_suffix-append root rest (text ".tmp") ne) (Apart-below root _ q far) in
        let w₁ = (write_archive path tmp w).1 in
        let first : Near q w₁ w =
          (write_archive-keeps path tmp w q apart, write_archive-env tmp w) in
        elim (Result-cases (write_archive path tmp w).0) [
          | inr (e, p) ↦
              rw p (Near-trans q (remove tmp w₁).1 w₁ w (remove-Near q tmp w₁ apart) first)
          | inl (_, p) ↦ rw p (
              Near-trans q (rename tmp out w₁).1 w₁ w
                (rename-Near q tmp out w₁ apart (Apart-below root rest q far)) first)
        ]

    -- Archiving changes nothing apart from the directory that the archive goes to.
    pub archive_repo-Near : (w : World) → Near q (archive_repo path out w).1 w
    unfolding archive_repo
    archive_repo-Near w =
        let parent = dir_of out in
        let above : at_or_above q parent ≡ false =
          rw (dir_of-append root rest ne) (Apart-below root (dir_of rest) q far).1 in
        let w₁ = (mkdir_all parent w).1 in
        let first = mkdir_all-Near q parent w above in
        elim (Result-cases (mkdir_all parent w).0) [
          | inr (e, p) ↦ rw p first
          | inl (_, p) ↦ rw p (Near-trans q (archive path out w₁).1 w₁ w (archive-Near w₁) first)
        ]
