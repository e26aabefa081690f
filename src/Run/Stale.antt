-- ===== src/Run/Stale.antt =====
-- internal/backup/run.go: which of the paths on disk `staleMirrors` returns.
use backup_git_repos.Base.{
  Text, text, ◌≤◌, List, [], ◌∷◌, ◌++◌, ◌≡◌, refl, subst, not, ◌&&◌, ◌||◌, arith, nat_eq, list_eq,
  list_beq_iff, contains, contains-append, contains-sort, count_if, map, IsSorted, sort,
  sort-IsSorted, occurrences, occurrences-sort, if◌then◌else◌, inl, inr,
}
use backup_git_repos.FilePath.{FilePath}
use backup_git_repos.Error.{ok}
use backup_git_repos.Error.Steps.{Result-cases, ok-injective}
use backup_git_repos.World.{World}
use backup_git_repos.Repo.{Repo}
use backup_git_repos.Run.Scan.{
  on_disk_paths, keep_stale, stale_mirrors, is_mirror_dir, is_archive_file,
}

abbrev pub paths_of : List Repo → List Text
paths_of = map (λ (r : Repo). r.path)

contains-keep_stale :
    (wanted seen ps : List Text) (a : Text)
    → contains (keep_stale wanted seen ps) a
      ≡ (contains ps a && not (contains wanted a || contains seen a))
unfolding keep_stale contains
contains-keep_stale wanted seen [] a = refl
contains-keep_stale wanted seen (p ∷ ps) a = ground (
  arith,
  list_beq_iff p a,
  contains-keep_stale wanted seen ps a,
  contains-keep_stale wanted (p ∷ seen) ps a,
)

occurrences-keep_stale :
    (wanted seen ps : List Text) (a : Text)
    → occurrences a (keep_stale wanted seen ps) ≤ (if contains seen a then 0 else 1)
unfolding keep_stale contains count_if
occurrences-keep_stale wanted seen [] a = omega arith
occurrences-keep_stale wanted seen (p ∷ ps) a = ground (
  arith,
  list_beq_iff p a,
  occurrences-keep_stale wanted seen ps a,
  occurrences-keep_stale wanted (p ∷ seen) ps a,
)

-- What `staleMirrors` returns for the mirrors and archives found on disk and the full listing.
pub record IsStale (mirrors archives : List Text) (repos : List Repo) (stale : List Text)
    : Type 0 where
  pub exactly :
      (a : Text)
      → contains stale a
        ≡ ((contains mirrors a || contains archives a) && not (contains (paths_of repos) a))
  pub sorted : IsSorted stale
  pub once : (a : Text) → occurrences a stale ≤ 1

keep_stale-IsStale :
    (mirrors archives : List Text) (repos : List Repo)
    → IsStale mirrors archives repos (sort (keep_stale (paths_of repos) [] (mirrors ++ archives)))
unfolding contains
keep_stale-IsStale mirrors archives repos =
    let found = mirrors ++ archives in
    let kept = keep_stale (paths_of repos) [] found in
    record {
      exactly = λ a. ground (
        arith,
        contains-sort kept a,
        contains-keep_stale (paths_of repos) [] found a,
        contains-append mirrors archives a,
      );
      sorted = sort-IsSorted kept;
      once = λ a.
          ground
            (arith, occurrences-sort a kept, occurrences-keep_stale (paths_of repos) [] found a);
    }

-- A scan that succeeds returns the paths of the mirrors and archives on disk that the full listing
-- lacks: exactly those, in order, each once.
pub stale_mirrors-IsStale :
    (dest archive_dir : FilePath) (repos : List Repo) (w : World) (stale : List Text)
    → stale_mirrors dest archive_dir repos w ≡ ok stale
    → (mirrors : List Text) × (archives : List Text) × (on_disk_paths dest
          (text ".git")
          is_mirror_dir
          w
        ≡ ok mirrors)
      × (on_disk_paths archive_dir (text ".tar.gz") is_archive_file w ≡ ok archives)
      × IsStale mirrors archives repos stale
unfolding stale_mirrors
stale_mirrors-IsStale dest archive_dir repos w stale h =
    elim (Result-cases (on_disk_paths dest (text ".git") is_mirror_dir w)) [
      | inr (e, q) ↦ cc (rw q at h)
      | inl (mirrors, q) ↦
          elim (Result-cases (on_disk_paths archive_dir (text ".tar.gz") is_archive_file w)) [
            | inr (e, r) ↦ cc (rw (q, r) at h)
            | inl (archives, r) ↦ (
              mirrors,
              archives,
              q,
              r,
              subst (IsStale mirrors archives repos) (ok-injective _ stale (rw (q, r) at h))
                  (keep_stale-IsStale mirrors archives repos),
            )
          ]
    ]
