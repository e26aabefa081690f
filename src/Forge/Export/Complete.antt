-- ===== src/Forge/Export/Complete.antt =====
-- The loops of the exporters over a forge that serves a list: every item is handled, in order.
use backup_git_repos.Base.{
  Text, length-take, take, take_all, ℕ, zero, suc, ◌+◌, ◌≤◌, ◌<◌, List, [], ◌∷◌, ◌++◌, append-nil,
  length, ltb, list_eq, nat_eq, list_beq, ◌≡◌, refl, ◌∙◌, sym, ap, subst, arith, inl, inr,
  Bool-cases,
}
use backup_git_repos.Error.{ok}
use backup_git_repos.Error.Steps.{Result-cases}
use backup_git_repos.World.{World, Io, pure, ◌>>◌}
use backup_git_repos.Forge.Paging.{last_page}
use backup_git_repos.Forge.Paging.Complete.{rest_after, drop, take-drop, length-drop, full_le}
use backup_git_repos.Forge.Paging.Linked.{Links, concat}
use backup_git_repos.Forge.Export.{each, page_end, page_round, each_page, linked_end, each_linked}

module _ {A : Type 0} (one : A → Io (Unit {0})) where
  each-append :
      (xs ys : List A) (w : World) → each one (xs ++ ys) w ≡ (each one xs >> each one ys) w
  unfolding each
  each-append [] ys w = refl
  each-append (a ∷ xs) ys w = elim (Result-cases (one a w).0) [
    | inl (done, p) ↦ rw p (each-append xs ys (one a w).1)
    | inr (e, p) ↦ rw p refl
  ]

  -- A forge that serves a list in pages, and does nothing else.
  abbrev pub Serves : (ℕ → Io (List A)) → ℕ → List A → Type 0
  Serves fetch size items =
      (n : ℕ) (w : World) → fetch (n + 1) w ≡ (ok (take size (rest_after size n items)), w)

  module _ (size : ℕ) (more : Io (Unit {0})) where
    page_end_short :
        (items : List A) (w : World) → length items < size → page_end size more items w ≡ (ok tt, w)
    unfolding page_end last_page
    page_end_short items w h = ground arith

    page_end_full :
        (items : List A) (w : World) → size ≤ length items → page_end size more items w ≡ more w
    unfolding page_end last_page
    page_end_full items w h = ground arith

    round_short :
        (items : List A) (w : World)
        → length items < size
        → page_round one size more items w ≡ each one items w
    unfolding page_round
    round_short [] w h = unfold each in refl
    round_short (a ∷ items) w h = elim (Result-cases (each one (a ∷ items) w).0) [
      | inl (done, p) ↦
          let w₁ = (each one (a ∷ items) w).1 in rw (p, page_end_short (a ∷ items) w₁ h) refl
      | inr (e, p) ↦ rw p refl
    ]

    round_full :
        (items : List A) (w : World)
        → size ≤ length items
        → 1 ≤ size
        → page_round one size more items w ≡ (each one items >> more) w
    unfolding page_round
    round_full [] w h k = absurd (omega (arith, h, k))
    round_full (a ∷ items) w h k = elim (Result-cases (each one (a ∷ items) w).0) [
      | inl (done, p) ↦ rw (p, page_end_full (a ∷ items) (each one (a ∷ items) w).1 h) refl
      | inr (e, p) ↦ rw p refl
    ]

  -- What follows a call may be exchanged for what does the same.
  then_same :
      (m : Io (Unit {0})) (n n' : Io (Unit {0})) (w : World)
      → ((v : World) → n v ≡ n' v)
      → (m >> n) w ≡ (m >> n') w
  then_same m n n' w h = elim (Result-cases (m w).0) [
    | inl (done, p) ↦ rw p (h (m w).1)
    | inr (e, p) ↦ rw p refl
  ]

  then_done : (m : Io (Unit {0})) (w : World) → (m >> pure tt) w ≡ m w
  then_done m w = elim (Result-cases (m w).0) [ inl (done, p) ↦ rw p refl | inr (e, p) ↦ rw p refl ]

  -- The loop from one page on.
  each_page-from :
      (fetch : ℕ → Io (List A)) (size : ℕ) (items : List A) (fuel n page : ℕ) (w : World)
      → 1 ≤ size
      → Serves fetch size items
      → length (rest_after size n items) < fuel
      → page ≡ n + 1
      → each_page fetch one size fuel page w ≡ each one (rest_after size n items) w
  unfolding each_page rest_after
  each_page-from fetch size items zero n page w k serves enough at = absurd (omega (arith, enough))
  each_page-from fetch size items (suc fuel) n page w k serves enough at =
      let rest = rest_after size n items in
      let more = each_page fetch one size fuel (page + 1) in
      let here : fetch page w ≡ (ok (take size rest), w) =
        subst (λ (p : ℕ). fetch p w ≡ (ok (take size rest), w)) (sym at) (serves n w) in
      elim (Bool-cases (ltb (length (take size rest)) size)) [
        | inl short ↦ rw here (
            round_short size more (take size rest) w (ground arith)
            ∙ ap (λ (xs : List A). each one xs w) (take_all size rest (ground arith)))
        | inr full ↦
            let long = full_le size (length (take size rest)) full in
            rw here (
              round_full size more (take size rest) w long k
              ∙ then_same (each one (take size rest)) more (each one (drop size rest)) w (λ v.
                each_page-from fetch size items fuel (suc n) (page + 1) v k serves
                  (omega (arith, enough, length-drop size rest, length-take size rest, long, k))
                  (omega (arith, at)))
              ∙ sym (each-append (take size rest) (drop size rest) w)
              ∙ ap (λ (xs : List A). each one xs w) (take-drop size rest))
      ]

  -- Over a forge that serves a list in full pages, with fuel for one more than its items, each item
  -- is handled once and in order.
  pub each_page-each :
      (fetch : ℕ → Io (List A)) (size : ℕ) (items : List A) (fuel : ℕ) (w : World)
      → 1 ≤ size
      → Serves fetch size items
      → length items < fuel
      → each_page fetch one size fuel 1 w ≡ each one items w
  unfolding rest_after
  each_page-each fetch size items fuel w k serves enough =
      each_page-from fetch size items fuel 0 1 w k serves enough (omega arith)

  -- Over pages that name their successors, with fuel for each page.
  pub each_linked-each :
      (fetch : ℕ → Io (List A × Text)) (listing : List (List A)) (fuel page : ℕ) (w : World)
      → Links fetch page listing
      → length listing ≤ fuel
      → each_linked fetch one fuel page w ≡ each one (concat listing) w
  unfolding each_linked linked_end concat list_beq
  each_linked-each fetch [] fuel page w links enough = absurd links
  each_linked-each fetch (items ∷ listing) zero page w links enough = absurd (omega (arith, enough))
  each_linked-each fetch (items ∷ []) (suc fuel) page w links enough =
      rw (links w) (
        then_done (each one items) w ∙ ap (λ (xs : List A). each one xs w) (sym (append-nil items)))
  each_linked-each fetch (items ∷ next ∷ more) (suc fuel) page w ((c, t, here), links) enough =
      rw (here w) (
        then_same (each one items) (each_linked fetch one fuel (page + 1))
          (each one (concat (next ∷ more))) w
          (λ v.
            each_linked-each fetch (next ∷ more) fuel (page + 1) v links (omega (arith, enough)))
        ∙ sym (each-append items (concat (next ∷ more)) w))
