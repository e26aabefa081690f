-- ===== src/Base/Bytes.antt =====
-- Go strings as their bytes: literals, suffixes, and the byte order that `slices.Sort` uses.
use Prim.Native.Nat.{ℕ}
use Prim.Native.Char.{code}
use Prim.Native.String.{String}
use mathlib.Core.Path.{◌≡◌, refl, sym, ap, ◌∙◌}
use mathlib.Core.Logic.{◌≢◌, inl, inr}
use mathlib.Core.Bool.{Bool, true, false, ◌&&◌}
use mathlib.Core.Option.{Option, none, some, some-injective}
use mathlib.Core.List.{List, [], ◌∷◌, ◌++◌}
use native.Mathlib.Omega.{arith}
use backup_git_repos.Base.Tests.{
  ◌==◌, nat_beq, nat_eq, nat_beq_iff, list_eq, list_beq_iff, if◌then◌else◌, list_beq, Bool-cases,
  Option-cases,
}
use backup_git_repos.Base.Lists.{length, length-append, All}

abbrev pub Text : Type 0
Text = List ℕ

-- The bytes of an ASCII literal.
abbrev pub text : String → Text
text String.[] = []
text (String.◌∷◌ c s) = code c ∷ text s

-- `strings.HasPrefix`
unfoldable pub has_prefix : Text → Text → Bool
has_prefix s [] = true
has_prefix [] (c ∷ p) = false
has_prefix (x ∷ s) (c ∷ p) = (x == c) && has_prefix s p

-- The text before a suffix, if it ends in it: `strings.HasSuffix` and `strings.TrimSuffix` in one.
unfoldable pub cut_suffix : Text → Text → Option Text
cut_suffix [] suffix = if suffix == [] then some [] else none
cut_suffix (x ∷ s) suffix =
    let rest = cut_suffix s suffix in
    if (x ∷ s) == suffix then some [] else elim rest [ none ↦ none | some r ↦ some (x ∷ r) ]

cut_suffix_self : (suffix : Text) → cut_suffix suffix suffix ≡ some []
unfolding cut_suffix list_beq
cut_suffix_self [] = refl
cut_suffix_self (x ∷ s) = ground (arith, list_beq_iff (x ∷ s) (x ∷ s))

longer-ne : (x : ℕ) (s t : Text) → x ∷ (s ++ t) ≢ t
longer-ne x s t h = omega (arith, ap length h, length-append s t)

pub cut_suffix-append : (s suffix : Text) → cut_suffix (s ++ suffix) suffix ≡ some s
unfolding cut_suffix
cut_suffix-append [] suffix = cut_suffix_self suffix
cut_suffix-append (x ∷ s) suffix = ground (
  arith,
  list_beq_iff (x ∷ (s ++ suffix)) suffix,
  longer-ne x s suffix,
  cut_suffix-append s suffix,
)

pub cut_suffix-eq-some :
    (s suffix : Text) {r : Text} → cut_suffix s suffix ≡ some r → s ≡ r ++ suffix
unfolding cut_suffix
cut_suffix-eq-some [] suffix h = ground (arith, list_beq_iff suffix [])
cut_suffix-eq-some (x ∷ s) suffix {r} h = elim (Bool-cases ((x ∷ s) == suffix)) [
  | inl e ↦
      let nil : [] ≡ r = some-injective [] r (rw e at h) in rw (← nil) ((list_beq_iff _ _).0 e)
  | inr e ↦ elim (Option-cases (cut_suffix s suffix)) [
    | inl q ↦ cc (rw (e, q) at h)
    | inr (r', q) ↦
        let tail : x ∷ r' ≡ r = some-injective (x ∷ r') r (rw (e, q) at h) in
        rw (← tail) (ap (λ t. x ∷ t) (cut_suffix-eq-some s suffix q))
  ]
]

pub append-inj : (p q suffix : Text) → p ++ suffix ≡ q ++ suffix → p ≡ q
append-inj p q suffix h = some-injective p q (
    sym (cut_suffix-append p suffix) ∙ ap (λ s. cut_suffix s suffix) h ∙ cut_suffix-append q suffix)

-- A `/`-separated text and its parts.
unfoldable pub push_first : ℕ → List Text → List Text
push_first x [] = (x ∷ []) ∷ []
push_first x (p ∷ ps) = (x ∷ p) ∷ ps

-- `strings.Split` at a separator of one byte.
unfoldable pub split_on : ℕ → Text → List Text
unfolding push_first
split_on c [] = [] ∷ []
split_on c (x ∷ s) = let rest = split_on c s in if x == c then [] ∷ rest else push_first x rest

-- `strings.Join`
unfoldable pub join_with : ℕ → List Text → Text
join_with c [] = []
join_with c (p ∷ []) = p
join_with c (p ∷ q ∷ ps) = p ++ c ∷ join_with c (q ∷ ps)

-- A byte that a text does not hold.
unfoldable pub lacks : ℕ → Text → Bool
lacks c [] = true
lacks c (x ∷ s) = if x == c then false else lacks c s

-- The last part, lengthened.
unfoldable pub append_last : Text → List Text → List Text
append_last t [] = t ∷ []
append_last t (p ∷ []) = (p ++ t) ∷ []
append_last t (p ∷ q ∷ ps) = p ∷ append_last t (q ∷ ps)

pub split_on-of_lacks : (c : ℕ) (s : Text) → lacks c s ≡ true → split_on c s ≡ s ∷ []
unfolding split_on lacks
split_on-of_lacks c [] h = refl
split_on-of_lacks c (x ∷ s) h = ground (arith, split_on-of_lacks c s)

pub split_on-join :
    (c : ℕ) (p : Text) (s : Text) → lacks c p ≡ true → split_on c (p ++ c ∷ s) ≡ p ∷ split_on c s
unfolding split_on lacks
split_on-join c [] s h = ground arith
split_on-join c (x ∷ p) s h = ground (arith, split_on-join c p s)

-- Splitting takes joining back, for parts without the separator.
split_on-join_with :
    (c : ℕ) (p : Text) (ps : List Text)
    → All (λ s. lacks c s ≡ true) (p ∷ ps)
    → split_on c (join_with c (p ∷ ps)) ≡ p ∷ ps
unfolding join_with
split_on-join_with c p [] h = split_on-of_lacks c p h.0
split_on-join_with c p (q ∷ ps) h =
    split_on-join c p _ h.0 ∙ ap (λ r. p ∷ r) (split_on-join_with c q ps h.1)

split_on-ne-nil : (c : ℕ) (s : Text) → split_on c s ≢ []
unfolding split_on push_first
split_on-ne-nil c [] h = cc
split_on-ne-nil c (x ∷ s) h = ground arith

push_first-append_last :
    (x : ℕ) (t : Text) (ps : List Text)
    → ps ≢ []
    → push_first x (append_last t ps) ≡ append_last t (push_first x ps)
unfolding push_first append_last
push_first-append_last x t [] h = absurd (h refl)
push_first-append_last x t (p ∷ []) h = refl
push_first-append_last x t (p ∷ q ∷ ps) h = refl

cons-append_last :
    (p t : Text) (ps : List Text) → ps ≢ [] → p ∷ append_last t ps ≡ append_last t (p ∷ ps)
unfolding append_last
cons-append_last p t [] h = absurd (h refl)
cons-append_last p t (q ∷ ps) h = refl

-- A suffix without the separator lengthens the last part.
pub split_on-append :
    (c : ℕ) (s t : Text) → lacks c t ≡ true → split_on c (s ++ t) ≡ append_last t (split_on c s)
unfolding split_on
split_on-append c [] t h = split_on-of_lacks c t h ∙ unfold append_last in refl
split_on-append c (x ∷ s) t h = ground (
  arith,
  split_on-append c s t h,
  cons-append_last [] t (split_on c s) (split_on-ne-nil c s),
  push_first-append_last x t (split_on c s) (split_on-ne-nil c s),
)

join_with-push_first :
    (c x : ℕ) (ps : List Text) → ps ≢ [] → join_with c (push_first x ps) ≡ x ∷ join_with c ps
unfolding join_with push_first
join_with-push_first c x [] h = absurd (h refl)
join_with-push_first c x (p ∷ []) h = refl
join_with-push_first c x (p ∷ q ∷ ps) h = refl

join_with-nil : (c : ℕ) (ps : List Text) → ps ≢ [] → join_with c ([] ∷ ps) ≡ c ∷ join_with c ps
unfolding join_with
join_with-nil c [] h = absurd (h refl)
join_with-nil c (p ∷ ps) h = refl

-- Joining takes splitting back.
pub join_with-split_on : (c : ℕ) (s : Text) → join_with c (split_on c s) ≡ s
unfolding split_on
join_with-split_on c [] = unfold join_with in refl
join_with-split_on c (x ∷ s) = ground (
  arith,
  join_with-split_on c s,
  join_with-push_first c x (split_on c s) (split_on-ne-nil c s),
  join_with-nil c (split_on c s) (split_on-ne-nil c s),
  nat_beq_iff x c,
)

lacks-push_first :
    (c x : ℕ) (ps : List Text)
    → nat_beq x c ≡ false
    → All (λ s. lacks c s ≡ true) ps
    → All (λ s. lacks c s ≡ true) (push_first x ps)
unfolding push_first lacks
lacks-push_first c x [] h a = ground arith
lacks-push_first c x (p ∷ ps) h a = (ground arith, a.1)

lacks-nil : (c : ℕ) → lacks c [] ≡ true
unfolding lacks
lacks-nil c = refl

-- No part holds the separator.
pub split_on-lacks : (c : ℕ) (s : Text) → All (λ p. lacks c p ≡ true) (split_on c s)
unfolding split_on
split_on-lacks c [] = unfold lacks in (refl, tt)
split_on-lacks c (x ∷ s) = elim (Bool-cases (nat_beq x c)) [
  | inl e ↦ rw e (lacks-nil c, split_on-lacks c s)
  | inr e ↦ rw e (lacks-push_first c x (split_on c s) e (split_on-lacks c s))
]
