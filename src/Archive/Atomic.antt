-- ===== src/Archive/Atomic.antt =====
-- internal/backup/archive.go: what stands at an archive's path, whether or not it could be written.
use backup_git_repos.Base.{
  Text, text, List, [], ◌∷◌, ◌≡◌, ◌≢◌, refl, ◌∙◌, ap, some, arith, inl, inr,
}
use backup_git_repos.FilePath.{FilePath, base, with_suffix}
use backup_git_repos.Fs.{dir, file, Entries, get}
use backup_git_repos.Fs.Update.{Apart}
use backup_git_repos.Tar.{TarEntry}
use backup_git_repos.Error.{Err, ok, err}
use backup_git_repos.Error.Steps.{Result-cases}
use backup_git_repos.World.{World, Env, write_file, rename}
use backup_git_repos.World.Keeps.{
  get-write_file, get-write_file_of_Apart, get-remove, rename_failed, with_suffix-Apart,
  get-rename_beside, write_file-env, wrap_result-eq-ok,
}
use backup_git_repos.Archive.{
  prefix_entry, open_root, sorted_paths, write_entries, close_archive, write_archive, archive,
}

open_root-eq-ok :
    (path : FilePath) (w : World) (es : Entries)
    → (open_root path w).0 ≡ ok es
    → get path w.fs ≡ some (dir es)
unfolding open_root
open_root-eq-ok path w es h = ground arith

pub open_root-world : (path : FilePath) (w : World) → (open_root path w).1 ≡ w
unfolding open_root
open_root-world path w = ground arith

module _ (path out : FilePath) (w : World) where
  -- The bytes of an archive of the mirror at a path, as it is read now.
  pub record Bytes (content : Text) : Type 0 where
    pub es : Entries
    pub there : get path w.fs ≡ some (dir es)
    pub paths : List Text
    pub walked : sorted_paths w.env path es ≡ ok paths
    pub entries : List TarEntry
    pub read : write_entries w.env path (some (dir es)) (base path) paths ≡ ok entries
    pub encoded : content ≡ w.env.encode (prefix_entry (base path) ∷ entries)

  pub write_archive-keeps :
      (q : FilePath) → Apart out q → get q (write_archive path out w).1.fs ≡ get q w.fs
  unfolding write_archive close_archive
  write_archive-keeps q far = elim (Result-cases (open_root path w).0) [
    | inr (e, p) ↦ rw (p, open_root-world path w) refl
    | inl (es, p) ↦ elim (Result-cases (sorted_paths w.env path es)) [
      | inr (e, s) ↦ rw (p, open_root-world path w, s) refl
      | inl (paths, s) ↦
          let w₁ = (write_file out [] w).1 in
          let created = get-write_file_of_Apart out q [] w far in
          elim (Result-cases (write_file out [] w).0) [
            | inr (e, c) ↦ rw (p, open_root-world path w, s, c) created
            | inl (done, c) ↦
                elim (Result-cases (write_entries w₁.env path (some (dir es)) (base path) paths)) [
                  | inr (e, r) ↦ rw (p, open_root-world path w, s, c, r) created
                  | inl (entries, r) ↦
                      rw (p, open_root-world path w, s, c, r)
                        (get-write_file_of_Apart out q _ w₁ far ∙ created)
                ]
          ]
    ]
  ]

  write_archive-Bytes :
      (write_archive path out w).0 ≡ ok tt
      → (content : Text) × Bytes content
        × (get out (write_archive path out w).1.fs ≡ some (file content))
  unfolding write_archive close_archive
  write_archive-Bytes h = elim (Result-cases (open_root path w).0) [
    | inr (e, p) ↦ cc (rw p at h)
    | inl (es, p) ↦ elim (Result-cases (sorted_paths w.env path es)) [
      | inr (e, s) ↦ cc (rw (p, open_root-world path w, s) at h)
      | inl (paths, s) ↦
          let w₁ = (write_file out [] w).1 in
          elim (Result-cases (write_file out [] w).0) [
            | inr (e, c) ↦ cc (rw (p, open_root-world path w, s, c) at h)
            | inl (done, c) ↦
                let same = write_file-env out [] w in
                elim (Result-cases (write_entries w₁.env path (some (dir es)) (base path) paths)) [
                  | inr (e, r) ↦ cc (rw (p, open_root-world path w, s, c, r) at h)
                  | inl (entries, r) ↦
                      let content = w₁.env.encode (prefix_entry (base path) ∷ entries) in
                      (
                        content,
                        record {
                          es = es;
                          there = open_root-eq-ok path w es p;
                          paths = paths;
                          walked = s;
                          entries = entries;
                          read = rw (← same) r;
                          encoded =
                              ap (λ (env : Env). env.encode (prefix_entry (base path) ∷ entries))
                                same;
                        },
                        rw (p, open_root-world path w, s, c, r)
                            (get-write_file out content w₁ (
                              wrap_result-eq-ok (text "close") (write_file out content w₁).0 tt
                                (rw (p, open_root-world path w, s, c, r) at h))),
                      )
                ]
          ]
    ]
  ]

module _ (path out : FilePath) (w : World) (ne : out ≢ []) where
  abbrev tmp : FilePath
  tmp = with_suffix out (text ".tmp")

  beside : Apart tmp out
  beside = with_suffix-Apart out (text ".tmp") ne (λ e. cc e)

  abbrev written : World
  written = (write_archive path tmp w).1

  -- An archive that fails, at whichever step, leaves what stood at its path.
  pub archive_failed :
      (e : Err) → (archive path out w).0 ≡ err e → get out (archive path out w).1.fs ≡ get out w.fs
  unfolding archive
  archive_failed e h =
      let kept = write_archive-keeps path tmp w out beside in
      elim (Result-cases (write_archive path tmp w).0) [
        | inr (x, p) ↦ rw p (get-remove tmp out written beside ∙ kept)
        | inl (done, p) ↦ elim (Result-cases (rename tmp out written).0) [
          | inl (moved, q) ↦ cc (rw (p, q) at h)
          | inr (x, q) ↦
              rw p (ap (λ (v : World). get out v.fs) (rename_failed tmp out written x q) ∙ kept)
        ]
      ]

  -- Where an archive is written without error, its path holds the encoding of every entry that the
  -- walk over the mirror lists, in sorted order.
  pub archive-Bytes :
      (archive path out w).0 ≡ ok tt
      → (content : Text) × Bytes path tmp w content
        × (get out (archive path out w).1.fs ≡ some (file content))
  unfolding archive
  archive-Bytes h = elim (Result-cases (write_archive path tmp w).0) [
    | inr (x, p) ↦ cc (rw p at h)
    | inl (done, p) ↦
        let (content, bytes, there) = write_archive-Bytes path tmp w p in
        let renamed =
          wrap_result-eq-ok (text "archive") (rename tmp out written).0 tt (rw p at h) in
        (
          content,
          bytes,
          rw p (get-rename_beside out (text ".tmp") (file content) written ne there renamed),
        )
  ]
