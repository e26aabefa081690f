-- ===== src/Fs/Update.antt =====
-- What a change at one path leaves at every other.
use backup_git_repos.Base.{Text, ◌≡◌, refl, sym, ap, ◌∙◌, [], ◌∷◌, ◌++◌, Option, none, some, arith}
use backup_git_repos.Base.{◌==◌, nat_eq, list_eq, list_beq_iff, Bool, true, false, ◌&&◌}
use backup_git_repos.Base.{Bool-cases, inl, inr}
use backup_git_repos.FilePath.{FilePath}
use mathlib.Core.Option.{some-injective}
use backup_git_repos.Fs.{
  Node, file, link, dir, end, Fs, Entries, find, get, alter, within, make_dirs, set_entry,
}
use backup_git_repos.Fs.Lookup.{find-set_entry, find-set_entry_self}

-- Whether one path stands at or above another.
unfoldable pub at_or_above : FilePath → FilePath → Bool
at_or_above [] q = true
at_or_above (a ∷ p) [] = false
at_or_above (a ∷ p) (b ∷ q) = (a == b) && at_or_above p q

pub at_or_above-append : (d p q : FilePath) → at_or_above (d ++ p) (d ++ q) ≡ at_or_above p q
unfolding at_or_above
at_or_above-append [] p q = refl
at_or_above-append (s ∷ d) p q = ground (arith, list_beq_iff s s, at_or_above-append d p q)

-- Neither stands at or above the other.
abbrev pub Apart : FilePath → FilePath → Type 0
Apart p q = (at_or_above p q ≡ false) × (at_or_above q p ≡ false)

-- A path that is not at, above or below the one that is changed keeps what it holds.
pub get-alter_of_Apart :
    (p q : FilePath) (f : Option Node → Option Node) (root : Fs)
    → at_or_above p q ≡ false
    → at_or_above q p ≡ false
    → get q (alter p f root) ≡ get q root
unfolding at_or_above get alter
get-alter_of_Apart [] q f root h k = cc h
get-alter_of_Apart (a ∷ p) [] f root h k = cc k
get-alter_of_Apart (a ∷ p) (b ∷ q) f none h k = refl
get-alter_of_Apart (a ∷ p) (b ∷ q) f (some (file s)) h k = refl
get-alter_of_Apart (a ∷ p) (b ∷ q) f (some (link s)) h k = refl
get-alter_of_Apart (a ∷ p) (b ∷ q) f (some (dir es)) h k = elim (Bool-cases (a == b)) [
  | inl e ↦
      rw (find-set_entry b a (alter p f (find a es)) es, e)
        (ground (arith, get-alter_of_Apart p q f (find a es), list_beq_iff a b, list_beq_iff b a))
  | inr e ↦ rw (find-set_entry b a (alter p f (find a es)) es, e)
]

pub get-none : (q : FilePath) → get q none ≡ none
unfolding get
get-none [] = refl
get-none (a ∷ q) = refl

pub get-append : (p q : FilePath) (root : Fs) → get (p ++ q) root ≡ get q (get p root)
unfolding get
get-append [] q root = refl
get-append (a ∷ p) q none = sym (get-none q)
get-append (a ∷ p) q (some (file s)) = sym (get-none q)
get-append (a ∷ p) q (some (link s)) = sym (get-none q)
get-append (a ∷ p) q (some (dir es)) = get-append p q (find a es)

-- A path whose directory exists holds what is put there.
pub get-alter_child :
    (p : FilePath) (name : Text) (f : Option Node → Option Node) (root : Fs) {es : Entries}
    → get p root ≡ some (dir es)
    → get (p ++ name ∷ []) (alter (p ++ name ∷ []) f root) ≡ f (find name es)
unfolding get alter
get-alter_child [] name f root {es} h = rw h (find-set_entry_self name (f (find name es)) es)
get-alter_child (a ∷ p) name f none h = cc h
get-alter_child (a ∷ p) name f (some (file s)) h = cc h
get-alter_child (a ∷ p) name f (some (link s)) h = cc h
get-alter_child (a ∷ p) name f (some (dir es)) h =
    rw find-set_entry_self (get-alter_child p name f (find a es) h)

-- What is removed is gone.
pub get-alter-none : (p : FilePath) (root : Fs) → get p (alter p (λ _. none) root) ≡ none
unfolding get alter
get-alter-none [] root = refl
get-alter-none (a ∷ p) none = refl
get-alter-none (a ∷ p) (some (file s)) = refl
get-alter-none (a ∷ p) (some (link s)) = refl
get-alter-none (a ∷ p) (some (dir es)) = rw find-set_entry_self (get-alter-none p (find a es))

-- A removal brings nothing back.
pub get-alter-none_of_none :
    (p q : FilePath) (root : Fs) → get q root ≡ none → get q (alter p (λ _. none) root) ≡ none
unfolding get alter
get-alter-none_of_none [] q root h = get-none q
get-alter-none_of_none (a ∷ p) [] none h = refl
get-alter-none_of_none (a ∷ p) [] (some n) h = cc h
get-alter-none_of_none (a ∷ p) (b ∷ q) none h = refl
get-alter-none_of_none (a ∷ p) (b ∷ q) (some (file s)) h = refl
get-alter-none_of_none (a ∷ p) (b ∷ q) (some (link s)) h = refl
get-alter-none_of_none (a ∷ p) (b ∷ q) (some (dir es)) h = elim (Bool-cases (a == b)) [
  | inl e ↦
      rw (find-set_entry b a (alter p (λ _. none) (find a es)) es, e)
        (get-alter-none_of_none p q (find a es) (rw ((list_beq_iff a b).0 e) h))
  | inr e ↦ rw (find-set_entry b a (alter p (λ _. none) (find a es)) es, e) h
]

get-within :
    (name b : Text) (es : Entries) (made : Option Fs) (q : FilePath) (root : Fs)
    → within name es made ≡ some root
    → ((child : Fs) → made ≡ some child → (name == b) ≡ true → get q child ≡ get q (find b es))
    → get (b ∷ q) root ≡ get q (find b es)
unfolding within get
get-within name b es none q root h same = cc h
get-within name b es (some child) q root h same =
    rw
      (
        ← some-injective (some (dir (set_entry name child es))) root h,
        find-set_entry b name child es,
      )
      (elim (Bool-cases (name == b)) [ inl e ↦ rw e (same child refl e) | inr e ↦ rw e refl ])

below :
    (name b : Text) (p q : FilePath)
    → (name == b) ≡ true
    → at_or_above (b ∷ q) (name ∷ p) ≡ false
    → at_or_above q p ≡ false
unfolding at_or_above
below name b p q e k = ground (arith, list_beq_iff name b, list_beq_iff b name)

-- Directories that are made leave every path that is not at or above them.
pub get-make_dirs :
    (p q : FilePath) (root root' : Fs)
    → make_dirs p root ≡ some root'
    → at_or_above q p ≡ false
    → get q root' ≡ get q root
unfolding make_dirs at_or_above get find
get-make_dirs p [] root root' h k = cc k
get-make_dirs [] (b ∷ q) none root' h k =
    rw (← some-injective (some (dir end)) root' h) (get-none q)
get-make_dirs [] (b ∷ q) (some (dir es)) root' h k =
    rw (← some-injective (some (dir es)) root' h) refl
get-make_dirs [] (b ∷ q) (some (file s)) root' h k = cc h
get-make_dirs [] (b ∷ q) (some (link s)) root' h k = cc h
get-make_dirs (name ∷ p) (b ∷ q) none root' h k =
    get-within name b end (make_dirs p none) q root' h (λ child made e.
      get-make_dirs p q none child made (below name b p q e k) ∙ get-none q ∙ sym (get-none q))
    ∙ get-none q
get-make_dirs (name ∷ p) (b ∷ q) (some (file s)) root' h k = cc h
get-make_dirs (name ∷ p) (b ∷ q) (some (link s)) root' h k = cc h
get-make_dirs (name ∷ p) (b ∷ q) (some (dir es)) root' h k =
    get-within name b es (make_dirs p (find name es)) q root' h (λ child made e.
      get-make_dirs p q (find name es) child made (below name b p q e k)
      ∙ ap (λ (s : Text). get q (find s es)) ((list_beq_iff name b).0 e))

-- A directory in which something is changed stays one.
pub get-alter_parent :
    (p : FilePath) (name : Text) (f : Option Node → Option Node) (root : Fs) {es : Entries}
    → get p root ≡ some (dir es)
    → (es' : Entries) × (get p (alter (p ++ name ∷ []) f root) ≡ some (dir es'))
unfolding get alter
get-alter_parent [] name f none h = cc h
get-alter_parent [] name f (some (file s)) h = cc h
get-alter_parent [] name f (some (link s)) h = cc h
get-alter_parent [] name f (some (dir es)) h = (_, refl)
get-alter_parent (a ∷ p) name f none h = cc h
get-alter_parent (a ∷ p) name f (some (file s)) h = cc h
get-alter_parent (a ∷ p) name f (some (link s)) h = cc h
get-alter_parent (a ∷ p) name f (some (dir es)) h =
    rw find-set_entry_self (get-alter_parent p name f (find a es) h)
