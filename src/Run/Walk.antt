-- ===== src/Run/Walk.antt =====
-- internal/backup/run.go: the walk of `onDiskPaths` over the mirrors.
use backup_git_repos.Base.{
  Text, text, List, [], ◌∷◌, ◌++◌, ◌≡◌, ◌≢◌, ◌⊎◌, if◌then◌else◌, refl, sym, ◌∙◌, ap, subst, Bool,
  true, false, some, arith, nat_eq, list_eq, list_beq_iff, ◌==◌, contains, contains-append,
  join_with, Bool-cases, inl, inr, append_assoc,
}
use backup_git_repos.FilePath.{FilePath}
use backup_git_repos.Fs.{Node, file, link, dir, Entries, end, entry, find, get}
use backup_git_repos.Fs.Update.{get-none}
use backup_git_repos.Error.{Result, ok, list_op}
use backup_git_repos.Error.Steps.{Result-cases, ok-injective}
use backup_git_repos.World.{Env}
use backup_git_repos.Run.Scan.{is_mirror_dir, has_suffix, trim_suffix, matches, on_disk}
use backup_git_repos.Run.Paths.{EndsMirror}

module _ (env : Env) (root : FilePath) where
  abbrev pub walk : FilePath → Entries → Result (List Text)
  walk = on_disk env root (text ".git") is_mirror_dir

  -- The repository path of an entry.
  abbrev pub named : FilePath → Text
  named parts = trim_suffix (join_with b'/' parts) (text ".git")

  abbrev Taken : Text → FilePath → Entries → List Text → List Text → Type 0
  Taken k path fs more ps =
      ((has_suffix k (text ".git") ≡ true) × (ps ≡ named path ∷ more))
      ⊎ ((inside : List Text) × (has_suffix k (text ".git") ≡ false)
          × (walk path fs ≡ ok inside)
          × (ps ≡ inside ++ more))

  -- One entry of the walk: a mirror is taken, any other directory is entered.
  walk-dir :
      (rel : FilePath) (k : Text) (fs rest : Entries) (ps : List Text)
      → walk rel (entry k (dir fs) rest) ≡ ok ps
      → (more : List Text) × (walk rel rest ≡ ok more) × Taken k (rel ++ k ∷ []) fs more ps
  unfolding on_disk matches is_mirror_dir
  walk-dir rel k fs rest ps h =
      let path = rel ++ k ∷ [] in
      elim (Bool-cases (has_suffix k (text ".git"))) [
        | inl m ↦ elim (Result-cases (walk rel rest)) [
          | inr (e, q) ↦ cc (rw (m, q) at h)
          | inl (more, q) ↦
              (more, q, inl (m, sym (ok-injective (named path ∷ more) ps (rw (m, q) at h))))
        ]
        | inr m ↦ elim (Bool-cases (env.refuses list_op (root ++ path))) [
          | inl b ↦ cc (rw (m, b) at h)
          | inr b ↦ elim (Result-cases (walk path fs)) [
            | inr (e, r) ↦ cc (rw (m, b, r) at h)
            | inl (inside, r) ↦ elim (Result-cases (walk rel rest)) [
              | inr (e, q) ↦ cc (rw (m, b, r, q) at h)
              | inl (more, q) ↦ (
                more,
                q,
                inr (inside, m, r, sym (ok-injective (inside ++ more) ps (rw (m, b, r, q) at h))),
              )
            ]
          ]
        ]
      ]

  walk-file :
      (rel : FilePath) (k c : Text) (rest : Entries) (ps : List Text)
      → walk rel (entry k (file c) rest) ≡ ok ps
      → walk rel rest ≡ ok ps
  unfolding on_disk matches is_mirror_dir
  walk-file rel k c rest ps h = elim (Bool-cases (has_suffix k (text ".git"))) [
    | inl m ↦ rw m at h
    | inr m ↦ rw m at h
  ]

  walk-link :
      (rel : FilePath) (k c : Text) (rest : Entries) (ps : List Text)
      → walk rel (entry k (link c) rest) ≡ ok ps
      → walk rel rest ≡ ok ps
  unfolding on_disk matches is_mirror_dir
  walk-link rel k c rest ps h = elim (Bool-cases (has_suffix k (text ".git"))) [
    | inl m ↦ rw m at h
    | inr m ↦ rw m at h
  ]

  contains-cons : (a b : Text) (ps : List Text) → contains ps a ≡ true → contains (b ∷ ps) a ≡ true
  unfolding contains
  contains-cons a b ps h = ground arith

  contains-first : (a : Text) (ps : List Text) → contains (a ∷ ps) a ≡ true
  unfolding contains
  contains-first a ps = ground (arith, list_beq_iff a a)

  -- What is found behind an entry is found.
  behind :
      (k a : Text) (path : FilePath) (fs : Entries) (more ps : List Text)
      → Taken k path fs more ps
      → contains more a ≡ true
      → contains ps a ≡ true
  behind k a path fs more ps (inl (m, e)) h = rw e (contains-cons a (named path) more h)
  behind k a path fs more ps (inr (inside, m, w, e)) h =
      rw e (ground (arith, contains-append inside more a))

  module _ (s k : Text) (parts : FilePath) (n : Node) (rest : Entries) where
    entry_here :
        (k == s) ≡ true → get (s ∷ parts) (some (dir (entry k n rest))) ≡ get parts (some n)
    unfolding get find
    entry_here e = ap (λ (b : Bool). get parts (if b then some n else find s rest)) e

    entry_other :
        (k == s) ≡ false
        → get (s ∷ parts) (some (dir (entry k n rest))) ≡ get (s ∷ parts) (some (dir rest))
    unfolding get find
    entry_other e = ap (λ (b : Bool). get parts (if b then some n else find s rest)) e

  pub no_dir_below :
      (parts : FilePath) (n : Node) (ds : Entries)
      → is_mirror_dir n ≡ false
      → get parts (some n) ≢ some (dir ds)
  unfolding get is_mirror_dir
  no_dir_below parts (dir fs) ds leaf there = cc leaf
  no_dir_below [] (file c) ds leaf there = cc there
  no_dir_below [] (link c) ds leaf there = cc there
  no_dir_below (t ∷ parts) (file c) ds leaf there = cc there
  no_dir_below (t ∷ parts) (link c) ds leaf there = cc there

  leaf-elsewhere :
      (s k : Text) (parts : FilePath) (n : Node) (rest ds : Entries)
      → is_mirror_dir n ≡ false
      → get (s ∷ parts) (some (dir (entry k n rest))) ≡ some (dir ds)
      → get (s ∷ parts) (some (dir rest)) ≡ some (dir ds)
  leaf-elsewhere s k parts n rest ds leaf there = elim (Bool-cases (k == s)) [
    | inl e ↦ absurd (no_dir_below parts n ds leaf (sym (entry_here s k parts n rest e) ∙ there))
    | inr e ↦ sym (entry_other s k parts n rest e) ∙ there
  ]

  pub on_disk-finds :
      (rel parts : FilePath) (es ds : Entries) (ps : List Text)
      → EndsMirror parts
      → walk rel es ≡ ok ps
      → get parts (some (dir es)) ≡ some (dir ds)
      → contains ps (named (rel ++ parts)) ≡ true
  unfolding get find is_mirror_dir
  on_disk-finds rel [] es ds ps ends h there = absurd ends
  on_disk-finds rel (s ∷ parts) end ds ps ends h there = cc (get-none parts, there)
  on_disk-finds rel (s ∷ parts) (entry k (file c) rest) ds ps ends h there =
      on_disk-finds rel (s ∷ parts) rest ds ps ends (walk-file rel k c rest ps h)
        (leaf-elsewhere s k parts (file c) rest ds refl there)
  on_disk-finds rel (s ∷ parts) (entry k (link c) rest) ds ps ends h there =
      on_disk-finds rel (s ∷ parts) rest ds ps ends (walk-link rel k c rest ps h)
        (leaf-elsewhere s k parts (link c) rest ds refl there)
  on_disk-finds rel (s ∷ []) (entry k (dir fs) rest) ds ps ends h there =
      let (more, rest_walked, taken) = walk-dir rel k fs rest ps h in
      elim (Bool-cases (k == s)) [
        | inr o ↦ behind k (named (rel ++ s ∷ [])) (rel ++ k ∷ []) fs more ps taken (
            on_disk-finds rel (s ∷ []) rest ds more ends rest_walked
              (sym (entry_other s k [] (dir fs) rest o) ∙ there))
        | inl e ↦
            let is : k ≡ s = (list_beq_iff k s).0 e in
            elim taken [
              | inl (m, eq) ↦ rw eq (
                  subst
                    (λ (u : Text).
                      contains (named (rel ++ k ∷ []) ∷ more) (named (rel ++ u ∷ [])) ≡ true)
                    is (contains-first (named (rel ++ k ∷ [])) more))
              | inr (inside, m, w, eq) ↦ cc (ends, rw is at m)
            ]
      ]
  on_disk-finds rel (s ∷ t ∷ parts) (entry k (dir fs) rest) ds ps ends h there =
      let path = rel ++ k ∷ [] in
      let (more, rest_walked, taken) = walk-dir rel k fs rest ps h in
      elim (Bool-cases (k == s)) [
        | inr o ↦ behind k (named (rel ++ s ∷ t ∷ parts)) path fs more ps taken (
            on_disk-finds rel (s ∷ t ∷ parts) rest ds more ends rest_walked
              (sym (entry_other s k (t ∷ parts) (dir fs) rest o) ∙ there))
        | inl e ↦
            let is : k ≡ s = (list_beq_iff k s).0 e in
            elim taken [
              | inl (m, eq) ↦ cc (ends.0, rw is at m)
              | inr (inside, m, w, eq) ↦
                  let below =
                    on_disk-finds path (t ∷ parts) fs ds inside ends.1 w
                      (sym (entry_here s k (t ∷ parts) (dir fs) rest e) ∙ there) in
                  let whole : path ++ t ∷ parts ≡ rel ++ s ∷ t ∷ parts =
                    append_assoc rel (k ∷ []) (t ∷ parts)
                    ∙ ap (λ (u : Text). rel ++ u ∷ t ∷ parts) is in
                  rw (eq, ← whole)
                    (ground (arith, below, contains-append inside more (named (path ++ t ∷ parts))))
            ]
      ]
