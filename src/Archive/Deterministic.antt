-- ===== src/Archive/Deterministic.antt =====
-- internal/backup/archive.go: the bytes of two archives of one mirror.
use backup_git_repos.Base.{
  Text, text, List, [], ◌∷◌, ◌++◌, ◌≡◌, ◌≢◌, refl, sym, ◌∙◌, ap, Option, some, inl, inr, split_on,
  sort, sort-same, Bool-cases, Option-cases,
}
use backup_git_repos.FilePath.{FilePath, base}
use backup_git_repos.Fs.{Node, file, link, dir, Entries, get}
use backup_git_repos.Tar.{TarEntry, Header, TypeFlag}
use backup_git_repos.Error.{ok, list_op, stat_op}
use backup_git_repos.Error.Steps.{Result-cases, ok-injective}
use backup_git_repos.World.{World, Env}
use backup_git_repos.Archive.{
  walk_paths, sorted_paths, header_for, entry_of, unreadable, write_entry, write_entries,
  prefix_entry, archive,
}
use backup_git_repos.Archive.Atomic.{archive-Bytes}
use backup_git_repos.Archive.Same.{
  SameNode, same_node, same_dir, SameEntries, SameOpt, both, get-SameOpt, all_paths, walk_paths-eq,
  SameEntries-paths,
}

sorted_paths-eq :
    (env : Env) (root : FilePath) (es : Entries) (ps : List Text)
    → sorted_paths env root es ≡ ok ps
    → ps ≡ sort (all_paths [] es)
unfolding sorted_paths
sorted_paths-eq env root es ps h = elim (Bool-cases (env.refuses list_op root)) [
  | inl b ↦ cc (rw b at h)
  | inr b ↦ elim (Result-cases (walk_paths env root [] es)) [
    | inr (e, p) ↦ cc (rw (b, p) at h)
    | inl (paths, p) ↦
        sym (ok-injective (sort paths) ps (rw (b, p) at h))
        ∙ ap sort (walk_paths-eq env root [] es paths p)
  ]
]

write_entry-eq-ok :
    (env : Env) (root : FilePath) (tree : Option Node) (prefix p : Text) (x : TarEntry)
    → write_entry env root tree prefix p ≡ ok x
    → (n : Node) × (get (split_on b'/' p) tree ≡ some n)
      × (x ≡ entry_of env root (prefix ++ text "/" ++ p) (root ++ split_on b'/' p) n)
unfolding write_entry
write_entry-eq-ok env root tree prefix p x h =
    let path = root ++ split_on b'/' p in
    elim (Bool-cases (env.refuses stat_op path)) [
      | inl b ↦ cc (rw b at h)
      | inr b ↦ elim (Option-cases (get (split_on b'/' p) tree)) [
        | inl q ↦ cc (rw (b, q) at h)
        | inr (n, q) ↦ elim (Bool-cases (unreadable env root path n)) [
          | inl r ↦ cc (rw (b, q, r) at h)
          | inr r ↦ (
            n,
            q,
            sym (
                ok-injective (entry_of env root (prefix ++ text "/" ++ p) path n) x
                  (rw (b, q, r) at h)),
          )
        ]
      ]
    ]

SameOpt-some : {n m : Node} → SameOpt (some n) (some m) → SameNode n m
SameOpt-some (both s) = s

module _ (root : FilePath) (env env' : Env)
    (modes : (path : FilePath) → (env.file_info path).mode ≡ (env'.file_info path).mode) where
  header_for-same :
      (flag : TypeFlag) (name link_name : Text) (path : FilePath)
      → header_for env root flag name link_name path ≡ header_for env' root flag name link_name path
  unfolding header_for
  header_for-same flag name link_name path = rw (modes path) refl

  entry_of_self :
      (name : Text) (path : FilePath) (n : Node)
      → entry_of env root name path n ≡ entry_of env' root name path n
  unfolding entry_of
  entry_of_self name path (dir es) =
      ap (λ (h : Header). record { header = h; content = [] }) (header_for-same _ _ _ path)
  entry_of_self name path (file s) =
      ap (λ (h : Header). record { header = h; content = s }) (header_for-same _ _ _ path)
  entry_of_self name path (link s) =
      ap (λ (h : Header). record { header = h; content = [] }) (header_for-same _ _ _ path)

  entry_of-same :
      (name : Text) (path : FilePath) {n m : Node}
      → SameNode n m
      → entry_of env root name path n ≡ entry_of env' root name path m
  entry_of-same name path (same_node {n}) = entry_of_self name path n
  entry_of-same name path (same_dir {es} {fs} s) =
      entry_of_self name path (dir es) ∙ unfold entry_of in refl

  module _ (prefix : Text) (tree tree' : Option Node) (alike : SameOpt tree tree') where
    write_entry-same :
        (p : Text) (x y : TarEntry)
        → write_entry env root tree prefix p ≡ ok x
        → write_entry env' root tree' prefix p ≡ ok y
        → x ≡ y
    write_entry-same p x y h k =
        let parts = split_on b'/' p in
        let (n, there, is) = write_entry-eq-ok env root tree prefix p x h in
        let (m, there', is') = write_entry-eq-ok env' root tree' prefix p y k in
        let here : SameOpt (some n) (some m) = rw (← there, ← there') (get-SameOpt parts alike) in
        is ∙ entry_of-same (prefix ++ text "/" ++ p) (root ++ parts) (SameOpt-some here) ∙ sym is'

    write_entries-same :
        (ps : List Text) (xs ys : List TarEntry)
        → write_entries env root tree prefix ps ≡ ok xs
        → write_entries env' root tree' prefix ps ≡ ok ys
        → xs ≡ ys
    unfolding write_entries
    write_entries-same [] xs ys h k = sym (ok-injective [] xs h) ∙ ok-injective [] ys k
    write_entries-same (p ∷ ps) xs ys h k =
        elim (Result-cases (write_entry env root tree prefix p)) [
          | inr (e, a) ↦ cc (rw a at h)
          | inl (x, a) ↦ elim (Result-cases (write_entries env root tree prefix ps)) [
            | inr (e, b) ↦ cc (rw (a, b) at h)
            | inl (rest, b) ↦ elim (Result-cases (write_entry env' root tree' prefix p)) [
              | inr (e, c) ↦ cc (rw c at k)
              | inl (y, c) ↦ elim (Result-cases (write_entries env' root tree' prefix ps)) [
                | inr (e, d) ↦ cc (rw (c, d) at k)
                | inl (rest', d) ↦
                    sym (ok-injective (x ∷ rest) xs (rw (a, b) at h))
                    ∙ ap (λ (z : TarEntry). z ∷ rest) (write_entry-same p x y a c)
                    ∙ ap (λ (zs : List TarEntry). y ∷ zs) (write_entries-same ps rest rest' b d)
                    ∙ ok-injective (y ∷ rest') ys (rw (c, d) at k)
              ]
            ]
          ]
        ]

dir-injective : (es fs : Entries) → some (dir es) ≡ some (dir fs) → es ≡ fs
dir-injective es fs h = cc

-- Two archives of one mirror, each written without error, hold the same bytes, whatever the order in
-- which its directories list their entries, and whatever the times and the owners of its files are.
pub archive-same :
    (path out out' : FilePath) (w w' : World) (es fs : Entries)
    → out ≢ []
    → out' ≢ []
    → ((entries : List TarEntry) → w.env.encode entries ≡ w'.env.encode entries)
    → ((file_path : FilePath)
        → (w.env.file_info file_path).mode ≡ (w'.env.file_info file_path).mode)
    → get path w.fs ≡ some (dir es)
    → get path w'.fs ≡ some (dir fs)
    → SameEntries es fs
    → (archive path out w).0 ≡ ok tt
    → (archive path out' w').0 ≡ ok tt
    → get out (archive path out w).1.fs ≡ get out' (archive path out' w').1.fs
archive-same path out out' w w' es fs ne ne' encoders modes there there' alike h k =
    let (content, b, stands) = archive-Bytes path out w ne h in
    let (content', c, stands') = archive-Bytes path out' w' ne' k in
    let same_es : b.es ≡ es = dir-injective b.es es (sym b.there ∙ there) in
    let same_fs : c.es ≡ fs = dir-injective c.es fs (sym c.there ∙ there') in
    let trees : SameEntries b.es c.es = rw (same_es, same_fs) alike in
    let walks : b.paths ≡ c.paths =
      sorted_paths-eq w.env path b.es b.paths b.walked
      ∙ sort-same (all_paths [] b.es) (all_paths [] c.es) (λ a. SameEntries-paths a [] trees)
      ∙ sym (sorted_paths-eq w'.env path c.es c.paths c.walked) in
    let entries : b.entries ≡ c.entries =
      write_entries-same path w.env w'.env modes (base path) (some (dir b.es)) (some (dir c.es))
        (both (same_dir trees)) b.paths b.entries c.entries b.read (rw walks c.read) in
    stands
    ∙ ap (λ (s : Text). some (file s))
        (b.encoded
          ∙ ap (λ (xs : List TarEntry). w.env.encode (prefix_entry (base path) ∷ xs)) entries
          ∙ encoders (prefix_entry (base path) ∷ c.entries)
          ∙ sym c.encoded)
    ∙ sym stands'
