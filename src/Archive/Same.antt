-- ===== src/Archive/Same.antt =====
-- internal/backup/archive.go: archives of one mirror, whose directories may list their entries in
-- another order and whose files may have other times and owners.
use backup_git_repos.Base.{
  Text, List, [], ◌∷◌, ◌++◌, ◌≡◌, ◌≢◌, refl, sym, ◌∙◌, ap, Option, some, none, Bool, arith, nat_eq,
  list_eq, list_beq_iff, inl, inr, join_with, occurrences, count_if, count_if-append, ◌==◌,
  if◌then◌else◌, Bool-cases,
}
use backup_git_repos.FilePath.{FilePath}
use backup_git_repos.Fs.{Node, file, link, dir, Entries, end, entry, find, get}
use backup_git_repos.Error.{ok, list_op}
use backup_git_repos.Error.Steps.{Result-cases, ok-injective}
use backup_git_repos.World.{Env}
use backup_git_repos.Archive.{walk_paths}

mutual
  -- Two trees that differ in the order of entries at most.
  pub data SameNode : Node → Node → Type 0 where
    same_node : {n : Node} → SameNode n n
    same_dir : {es fs : Entries} → SameEntries es fs → SameNode (dir es) (dir fs)

  pub data SameEntries : Entries → Entries → Type 0 where
    same : {es : Entries} → SameEntries es es
    keep :
        {n m : Node} {es fs : Entries} (name : Text)
        → SameNode n m
        → SameEntries es fs
        → SameEntries (entry name n es) (entry name m fs)
    swap :
        {n m : Node} {es : Entries} (j k : Text)
        → j ≢ k
        → SameEntries (entry j n (entry k m es)) (entry k m (entry j n es))
    after : {es fs gs : Entries} → SameEntries es fs → SameEntries fs gs → SameEntries es gs

mutual
  -- The walk, where nothing is refused.
  pub node_paths : FilePath → Node → List Text
  node_paths rel (dir es) = all_paths rel es
  node_paths rel (file s) = []
  node_paths rel (link s) = []

  pub all_paths : FilePath → Entries → List Text
  all_paths rel end = []
  all_paths rel (entry name n es) =
      join_with b'/' (rel ++ name ∷ []) ∷ (node_paths (rel ++ name ∷ []) n ++ all_paths rel es)

pub walk_paths-eq :
    (env : Env) (root rel : FilePath) (es : Entries) (ps : List Text)
    → walk_paths env root rel es ≡ ok ps
    → ps ≡ all_paths rel es
unfolding walk_paths all_paths node_paths
walk_paths-eq env root rel end ps h = sym (ok-injective [] ps h)
walk_paths-eq env root rel (entry name (dir fs) es) ps h =
    let path = rel ++ name ∷ [] in
    let first = join_with b'/' path in
    elim (Bool-cases (env.refuses list_op (root ++ path))) [
      | inl b ↦ cc (rw b at h)
      | inr b ↦ elim (Result-cases (walk_paths env root path fs)) [
        | inr (e, p) ↦ cc (rw (b, p) at h)
        | inl (inside, p) ↦ elim (Result-cases (walk_paths env root rel es)) [
          | inr (e, q) ↦ cc (rw (b, p, q) at h)
          | inl (more, q) ↦
              sym (ok-injective (first ∷ (inside ++ more)) ps (rw (b, p, q) at h))
              ∙ ap (λ (xs : List Text). first ∷ (xs ++ more))
                  (walk_paths-eq env root path fs inside p)
              ∙ ap (λ (ys : List Text). first ∷ (all_paths path fs ++ ys))
                  (walk_paths-eq env root rel es more q)
        ]
      ]
    ]
walk_paths-eq env root rel (entry name (file s) es) ps h =
    let first = join_with b'/' (rel ++ name ∷ []) in
    elim (Result-cases (walk_paths env root rel es)) [
      | inr (e, q) ↦ cc (rw q at h)
      | inl (more, q) ↦
          sym (ok-injective (first ∷ more) ps (rw q at h))
          ∙ ap (λ (ys : List Text). first ∷ ys) (walk_paths-eq env root rel es more q)
    ]
walk_paths-eq env root rel (entry name (link s) es) ps h =
    let first = join_with b'/' (rel ++ name ∷ []) in
    elim (Result-cases (walk_paths env root rel es)) [
      | inr (e, q) ↦ cc (rw q at h)
      | inl (more, q) ↦
          sym (ok-injective (first ∷ more) ps (rw q at h))
          ∙ ap (λ (ys : List Text). first ∷ ys) (walk_paths-eq env root rel es more q)
    ]

module _ (a : Text) where
  abbrev is_it : Text → Bool
  is_it s = s == a

  mutual
    unfolding all_paths count_if

    SameNode-paths :
        (rel : FilePath) {n m : Node}
        → SameNode n m
        → occurrences a (node_paths rel n) ≡ occurrences a (node_paths rel m)
    SameNode-paths rel same_node = refl
    SameNode-paths rel (same_dir s) = SameEntries-paths rel s

    pub SameEntries-paths :
        (rel : FilePath) {es fs : Entries}
        → SameEntries es fs
        → occurrences a (all_paths rel es) ≡ occurrences a (all_paths rel fs)
    SameEntries-paths rel same = refl
    SameEntries-paths rel (keep {n} {m} {es} {fs} name s t) =
        let path = rel ++ name ∷ [] in
        omega (
          arith,
          count_if-append is_it (node_paths path n) (all_paths rel es),
          count_if-append is_it (node_paths path m) (all_paths rel fs),
          SameNode-paths path s,
          SameEntries-paths rel t,
        )
    SameEntries-paths rel (swap {n} {m} {es} j k ne) =
        let path_j = rel ++ j ∷ [] in
        let path_k = rel ++ k ∷ [] in
        omega (
          arith,
          count_if-append is_it (node_paths path_j n) (all_paths rel (entry k m es)),
          count_if-append is_it (node_paths path_k m) (all_paths rel es),
          count_if-append is_it (node_paths path_k m) (all_paths rel (entry j n es)),
          count_if-append is_it (node_paths path_j n) (all_paths rel es),
        )
    SameEntries-paths rel (after s t) = SameEntries-paths rel s ∙ SameEntries-paths rel t

-- What stands at one path of two such trees.
pub data SameOpt : Option Node → Option Node → Type 0 where
  neither : SameOpt none none
  both : {n m : Node} → SameNode n m → SameOpt (some n) (some m)

SameOpt-self : (o : Option Node) → SameOpt o o
SameOpt-self none = neither
SameOpt-self (some n) = both same_node

SameNode-trans : {n m k : Node} → SameNode n m → SameNode m k → SameNode n k
SameNode-trans same_node t = t
SameNode-trans (same_dir s) same_node = same_dir s
SameNode-trans (same_dir s) (same_dir t) = same_dir (after s t)

SameOpt-trans : {o p q : Option Node} → SameOpt o p → SameOpt p q → SameOpt o q
SameOpt-trans neither t = t
SameOpt-trans (both s) (both t) = both (SameNode-trans s t)

find-SameOpt : (b : Text) {es fs : Entries} → SameEntries es fs → SameOpt (find b es) (find b fs)
unfolding find
find-SameOpt b (same {es}) = SameOpt-self (find b es)
find-SameOpt b (keep name s t) = elim (Bool-cases (name == b)) [
  | inl e ↦ rw e (both s)
  | inr e ↦ rw e (find-SameOpt b t)
]
find-SameOpt b (swap {n} {m} {es} j k ne) = elim (Bool-cases (j == b)) [
  | inl e ↦ elim (Bool-cases (k == b)) [
    | inl d ↦ absurd (ne ((list_beq_iff j b).0 e ∙ sym ((list_beq_iff k b).0 d)))
    | inr d ↦ rw (e, d) (both same_node)
  ]
  | inr e ↦ rw e (SameOpt-self (if k == b then some m else find b es))
]
find-SameOpt b (after s t) = SameOpt-trans (find-SameOpt b s) (find-SameOpt b t)

pub get-SameOpt : (p : FilePath) {o q : Option Node} → SameOpt o q → SameOpt (get p o) (get p q)
unfolding get
get-SameOpt [] s = s
get-SameOpt (b ∷ p) neither = neither
get-SameOpt (b ∷ p) (both (same_node {n})) = SameOpt-self (get (b ∷ p) (some n))
get-SameOpt (b ∷ p) (both (same_dir s)) = get-SameOpt p (find-SameOpt b s)
