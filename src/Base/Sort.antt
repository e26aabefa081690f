-- ===== src/Base/Sort.antt =====
-- `slices.Sort` on strings: the byte order, and the one sorted list of given texts.
use Prim.Native.Nat.{ℕ, ◌+◌, ◌≤◌}
use mathlib.Core.Path.{◌≡◌, refl, sym, ap, subst, ◌∙◌}
use mathlib.Core.Logic.{inl, inr}
use mathlib.Core.Bool.{Bool, true, false, ◌||◌}
use mathlib.Core.List.{List, [], ◌∷◌}
use native.Mathlib.Omega.{arith}
use backup_git_repos.Base.Tests.{
  ◌==◌, nat_eq, list_eq, list_beq_iff, ltb, nat_beq, if◌then◌else◌, Bool-cases,
}
use backup_git_repos.Base.Lists.{All, contains, count_if}
use backup_git_repos.Base.Bytes.{Text}

-- `s <= t`
unfoldable pub text_leb : Text → Text → Bool
text_leb [] t = true
text_leb (x ∷ s) [] = false
text_leb (x ∷ s) (y ∷ t) = if ltb x y then true else if nat_beq x y then text_leb s t else false

unfoldable pub insert_text : Text → List Text → List Text
insert_text s [] = s ∷ []
insert_text s (t ∷ ts) = if text_leb s t then s ∷ t ∷ ts else t ∷ insert_text s ts

unfoldable pub sort : List Text → List Text
unfolding insert_text text_leb
sort [] = []
sort (s ∷ ss) = insert_text s (sort ss)

text_leb-total : (s t : Text) → text_leb s t ≡ false → text_leb t s ≡ true
unfolding text_leb
text_leb-total [] t h = cc h
text_leb-total (x ∷ s) [] h = refl
text_leb-total (x ∷ s) (y ∷ t) h = ground (arith, text_leb-total s t)

text_leb_trans : (r s t : Text) → text_leb r s ≡ true → text_leb s t ≡ true → text_leb r t ≡ true
unfolding text_leb
text_leb_trans [] s t h k = refl
text_leb_trans (x ∷ r) [] t h k = cc h
text_leb_trans (x ∷ r) (y ∷ s) [] h k = cc k
text_leb_trans (x ∷ r) (y ∷ s) (z ∷ t) h k = ground (arith, text_leb_trans r s t)

text_leb_antisymm : (s t : Text) → text_leb s t ≡ true → text_leb t s ≡ true → s ≡ t
unfolding text_leb
text_leb_antisymm [] [] h k = refl
text_leb_antisymm [] (y ∷ t) h k = cc k
text_leb_antisymm (x ∷ s) [] h k = cc h
text_leb_antisymm (x ∷ s) (y ∷ t) h k = ground (arith, text_leb_antisymm s t)

-- No element is greater than one that stands behind it.
abbrev pub IsSorted : List Text → Type 0
IsSorted [] = Unit
IsSorted (s ∷ ss) = All (λ t. text_leb s t ≡ true) ss × IsSorted ss

All-leb_trans :
    (r s : Text) (ts : List Text)
    → text_leb r s ≡ true
    → All (λ t. text_leb s t ≡ true) ts
    → All (λ t. text_leb r t ≡ true) ts
All-leb_trans r s [] h a = tt
All-leb_trans r s (t ∷ ts) h a = (text_leb_trans r s t h a.0, All-leb_trans r s ts h a.1)

All-insert_text :
    (P : Text → Type 0) (s : Text) (ts : List Text) → P s → All P ts → All P (insert_text s ts)
unfolding insert_text
All-insert_text P s [] p a = (p, tt)
All-insert_text P s (t ∷ ts) p a = elim (Bool-cases (text_leb s t)) [
  | inl e ↦ rw e (p, a)
  | inr e ↦ rw e (a.0, All-insert_text P s ts p a.1)
]

insert_text-IsSorted : (s : Text) (ts : List Text) → IsSorted ts → IsSorted (insert_text s ts)
unfolding insert_text
insert_text-IsSorted s [] h = (tt, tt)
insert_text-IsSorted s (t ∷ ts) h = elim (Bool-cases (text_leb s t)) [
  | inl e ↦ rw e ((e, All-leb_trans s t ts e h.0), h)
  | inr e ↦ rw e (All-insert_text _ s ts (text_leb-total s t e) h.0, insert_text-IsSorted s ts h.1)
]

pub sort-IsSorted : (ss : List Text) → IsSorted (sort ss)
unfolding sort
sort-IsSorted [] = tt
sort-IsSorted (s ∷ ss) = insert_text-IsSorted s (sort ss) (sort-IsSorted ss)

contains-insert_text :
    (s : Text) (ts : List Text) (a : Text)
    → contains (insert_text s ts) a ≡ ((s == a) || contains ts a)
unfolding insert_text contains
contains-insert_text s [] a = refl
contains-insert_text s (t ∷ ts) a = ground (arith, contains-insert_text s ts a)

-- Sorting keeps the elements.
pub contains-sort : (ss : List Text) (a : Text) → contains (sort ss) a ≡ contains ss a
unfolding sort contains
contains-sort [] a = refl
contains-sort (s ∷ ss) a = contains-insert_text s (sort ss) a ∙ ground (arith, contains-sort ss a)

-- How often a text stands in a list.
abbrev pub occurrences : Text → List Text → ℕ
occurrences a = count_if (λ (s : Text). s == a)

occurrences-insert_text :
    (a s : Text) (ts : List Text)
    → occurrences a (insert_text s ts) ≡ (if s == a then 1 else 0) + occurrences a ts
unfolding insert_text count_if
occurrences-insert_text a s [] = refl
occurrences-insert_text a s (t ∷ ts) = ground (arith, occurrences-insert_text a s ts)

pub occurrences-sort : (a : Text) (ss : List Text) → occurrences a (sort ss) ≡ occurrences a ss
unfolding sort count_if
occurrences-sort a [] = refl
occurrences-sort a (s ∷ ss) =
    occurrences-insert_text a s (sort ss)
    ∙ ap (λ (n : ℕ). (if s == a then 1 else 0) + n) (occurrences-sort a ss)

occurrences_self : (a : Text) (ts : List Text) → 1 ≤ occurrences a (a ∷ ts)
unfolding count_if
occurrences_self a ts = ground (arith, list_beq_iff a a)

-- What stands in a list has what every element has.
All-occurs : (P : Text → Type 0) (ts : List Text) (a : Text) → All P ts → 1 ≤ occurrences a ts → P a
unfolding count_if
All-occurs P [] a h k = absurd (omega (arith, k))
All-occurs P (t ∷ ts) a h k = elim (Bool-cases (t == a)) [
  | inl e ↦ subst P ((list_beq_iff t a).0 e) h.0
  | inr e ↦ All-occurs P ts a h.1 (ground arith)
]

text_leb_self : (s : Text) → text_leb s s ≡ true
unfolding text_leb
text_leb_self [] = refl
text_leb_self (x ∷ s) = ground (arith, text_leb_self s)

-- The first of two sorted lists stands before all of the other.
first-leb :
    (s t : Text) (ss ts : List Text)
    → IsSorted (t ∷ ts)
    → ((a : Text) → occurrences a (s ∷ ss) ≡ occurrences a (t ∷ ts))
    → text_leb t s ≡ true
first-leb s t ss ts h same =
    All-occurs (λ a. text_leb t a ≡ true) (t ∷ ts) s (text_leb_self t, h.0)
      (omega (arith, occurrences_self s ss, same s))

-- Sorted lists that hold the same are the same.
IsSorted-unique :
    (ss ts : List Text)
    → IsSorted ss
    → IsSorted ts
    → ((a : Text) → occurrences a ss ≡ occurrences a ts)
    → ss ≡ ts
unfolding count_if
IsSorted-unique [] [] h k same = refl
IsSorted-unique [] (t ∷ ts) h k same = absurd (omega (arith, same t, occurrences_self t ts))
IsSorted-unique (s ∷ ss) [] h k same = absurd (omega (arith, same s, occurrences_self s ss))
IsSorted-unique (s ∷ ss) (t ∷ ts) h k same =
    let e : s ≡ t =
      text_leb_antisymm s t (first-leb t s ts ss h (λ a. sym (same a)))
        (first-leb s t ss ts k same) in
    let same_rest : (a : Text) → occurrences a ss ≡ occurrences a ts =
      λ a. omega (arith, same a ∙ ap (λ u. occurrences a (u ∷ ts)) (sym e)) in
    subst (λ u. s ∷ ss ≡ u ∷ ts) e
      (ap (λ (us : List Text). s ∷ us) (IsSorted-unique ss ts h.1 k.1 same_rest))

-- Sorting forgets the order.
pub sort-same :
    (ss ts : List Text) → ((a : Text) → occurrences a ss ≡ occurrences a ts) → sort ss ≡ sort ts
sort-same ss ts same =
    IsSorted-unique (sort ss) (sort ts) (sort-IsSorted ss) (sort-IsSorted ts)
      (λ a. occurrences-sort a ss ∙ same a ∙ sym (occurrences-sort a ts))
