-- ===== src/Forge/Export/Lands.antt =====
-- The loops of the exporters on disk: what each item leaves there, the items behind it do not undo.
use backup_git_repos.Base.{List, [], ◌∷◌, ◌≡◌, refl, sym, subst, All, inl, inr}
use backup_git_repos.Error.{Result, ok}
use backup_git_repos.Error.Steps.{Result-cases}
use backup_git_repos.World.{World, Io}
use backup_git_repos.Forge.Export.{each}

-- Every two items of a list, the first of them before the other.
unfoldable pub Pairwise : {A : Type 0} → (A → A → Type 0) → List A → Type 0
Pairwise Sep [] = Unit
Pairwise Sep (a ∷ items) = All (Sep a) items × Pairwise Sep items

module _ {A : Type 0} (one : A → Io (Unit {0})) (Post : A → World → Type 0) (Sep : A → A → Type 0)
    (lands : (a : A) (w : World) → (one a w).0 ≡ ok tt → Post a (one a w).1)
    (keeps : (a b : A) (w : World) → Sep a b → Post a w → Post a (one b w).1) where
  each-cons :
      (a : A) (items : List A) (w : World)
      → (one a w).0 ≡ ok tt
      → each one (a ∷ items) w ≡ each one items (one a w).1
  unfolding each
  each-cons a items w q = rw q refl

  each-keeps :
      (a : A) (items : List A) (w : World)
      → All (Sep a) items
      → Post a w
      → Post a (each one items w).1
  unfolding each
  each-keeps a [] w far p = p
  each-keeps a (b ∷ items) w far p = elim (Result-cases (one b w).0) [
    | inl (done, q) ↦ rw q (each-keeps a items (one b w).1 far.1 (keeps a b w far.0 p))
    | inr (e, q) ↦ rw q (keeps a b w far.0 p)
  ]

  -- Where all of the items are handled, each has left what it leaves alone.
  pub each-lands :
      (items : List A) (w : World)
      → Pairwise Sep items
      → (each one items w).0 ≡ ok tt
      → All (λ (a : A). Post a (each one items w).1) items
  unfolding each Pairwise
  each-lands [] w far h = tt
  each-lands (a ∷ items) w far h = elim (Result-cases (one a w).0) [
    | inl (done, q) ↦
        let w₁ = (one a w).1 in
        subst (λ (s : Result (Unit {0}) × World). All (λ (b : A). Post b s.1) (a ∷ items))
          (sym (each-cons a items w q))
          (each-keeps a items w₁ far.0 (lands a w q), each-lands items w₁ far.1 (rw q at h))
    | inr (e, q) ↦ cc (rw q at h)
  ]
