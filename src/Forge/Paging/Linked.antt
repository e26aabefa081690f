-- ===== src/Forge/Paging/Linked.antt =====
-- The loop over a forge whose pages name their successors.
use backup_git_repos.Base.{
  Text, ℕ, zero, suc, ◌+◌, ◌≤◌, list_eq, nat_eq, list_beq, List, [], ◌∷◌, ◌++◌, append-nil, length,
  ◌≡◌, refl, sym, ap, arith,
}
use backup_git_repos.Error.{ok}
use backup_git_repos.World.{World, Io}
use backup_git_repos.Forge.Paging.{next_then, linked_pages}

module _ {B : Type 0} where
  -- A forge whose pages, from one number on, hold these items; all but the last name a successor.
  abbrev pub Links : (ℕ → Io (List B × Text)) → ℕ → List (List B) → Type 0
  Links fetch page [] = ⊥
  Links fetch page (items ∷ []) = (w : World) → fetch page w ≡ (ok (items, []), w)
  Links fetch page (items ∷ next ∷ more) =
      ((c : ℕ) × (t : Text) × ((w : World) → fetch page w ≡ (ok (items, c ∷ t), w)))
      × Links fetch (page + 1) (next ∷ more)

  unfoldable pub concat : List (List B) → List B
  concat [] = []
  concat (items ∷ more) = items ++ concat more

  -- With as much fuel as there are pages, the loop returns the items of all of them, in order.
  pub linked_pages-concat :
      (fetch : ℕ → Io (List B × Text)) (listing : List (List B)) (fuel page : ℕ) (w : World)
      → Links fetch page listing
      → length listing ≤ fuel
      → linked_pages fetch fuel page w ≡ (ok (concat listing), w)
  unfolding linked_pages next_then concat list_beq
  linked_pages-concat fetch [] fuel page w links enough = absurd links
  linked_pages-concat fetch (items ∷ listing) zero page w links enough =
      absurd (omega (arith, enough))
  linked_pages-concat fetch (items ∷ []) (suc fuel) page w links enough =
      rw (links w) (ap (λ (xs : List B). (ok xs, w)) (sym (append-nil items)))
  linked_pages-concat fetch (items ∷ next ∷ more) (suc fuel) page w ((c, t, here), links) enough =
      rw
        (
          here w,
          linked_pages-concat fetch (next ∷ more) fuel (page + 1) w links (omega (arith, enough)),
        )
        refl
