-- ===== src/Forge/Paging/Complete.antt =====
-- The loop over a forge that serves a list in pages.
use backup_git_repos.Base.{
  length-take, take, take_all, ℕ, zero, suc, ◌+◌, ◌-◌, ◌≤◌, ◌<◌, List, [], ◌∷◌, ◌++◌, Option, none,
  some, Bool, false, length, ltb, nat_beq, ◌≡◌, refl, ◌∙◌, sym, ap, subst, arith, inl, inr,
  Bool-cases, if◌then◌else◌,
}
use backup_git_repos.Error.{Result, ok}
use backup_git_repos.World.{World, Io}
use backup_git_repos.Forge.Paging.{collect, consider, last_page, page_then, pages}

module _ {A : Type 0} where
  unfoldable pub drop : ℕ → List A → List A
  drop zero xs = xs
  drop (suc n) [] = []
  drop (suc n) (x ∷ xs) = drop n xs

  pub take-drop : (n : ℕ) (xs : List A) → take n xs ++ drop n xs ≡ xs
  unfolding take drop
  take-drop zero xs = refl
  take-drop (suc n) [] = refl
  take-drop (suc n) (x ∷ xs) = ap (λ (ys : List A). x ∷ ys) (take-drop n xs)

  -- What is left after some pages.
  unfoldable pub rest_after : ℕ → ℕ → List A → List A
  rest_after size zero items = items
  rest_after size (suc n) items = drop size (rest_after size n items)

  pub length-drop : (n : ℕ) (xs : List A) → length (drop n xs) ≤ length xs - n
  unfolding drop
  length-drop zero xs = omega arith
  length-drop (suc n) [] = omega arith
  length-drop (suc n) (x ∷ xs) = omega (arith, length-drop n xs)

-- The items that pass a test, in order.
unfoldable pub selected {ℓ} : {A : Type ℓ} → (A → Bool) → List A → List A
selected p [] = []
selected p (x ∷ xs) = if p x then x ∷ selected p xs else selected p xs

abbrev pub succeeded {ℓ} : {B : Type ℓ} → List B × World → Result (List B) × World
succeeded (bs, w) = (ok bs, w)

pub full_le : (size n : ℕ) → ltb n size ≡ false → size ≤ n
full_le size n h = ground arith

module _ {A B : Type 0} (one : A → World → Option B × World) where
  consider-append : (b : Option B) (xs ys : List B) → consider b (xs ++ ys) ≡ consider b xs ++ ys
  unfolding consider
  consider-append none xs ys = refl
  consider-append (some b) xs ys = refl

  abbrev joined : List B → List B × World → List B × World
  joined bs (cs, w) = (bs ++ cs, w)

  collect-append :
      (xs ys : List A) (w : World)
      → collect one (xs ++ ys) w ≡ joined (collect one xs w).0 (collect one ys (collect one xs w).1)
  unfolding collect
  collect-append [] ys w = refl
  collect-append (x ∷ xs) ys w =
      let (kept, w₁) = one x w in
      rw (collect-append xs ys w₁) (
        ap (λ (bs : List B). (bs, (collect one ys (collect one xs w₁).1).1))
          (consider-append kept (collect one xs w₁).0 (collect one ys (collect one xs w₁).1).0))

  -- A forge that serves a list in pages, and does nothing else.
  abbrev pub Serves : (ℕ → Io (List A)) → ℕ → List A → Type 0
  Serves fetch size items =
      (n : ℕ) (w : World) → fetch (n + 1) w ≡ (ok (take size (rest_after size n items)), w)

  module _ (size : ℕ) (more : Io (List B)) (w : World) where
    page_empty : (items : List A) → length items ≡ 0 → page_then one size more items w ≡ (ok [], w)
    unfolding page_then
    page_empty items h = ground arith

    page_short :
        (items : List A)
        → length items < size
        → page_then one size more items w ≡ succeeded (collect one items w)
    unfolding page_then last_page collect
    page_short [] h = refl
    page_short (x ∷ items) h = ground arith

    page_full :
        (items : List A)
        → size ≤ length items
        → 1 ≤ size
        → (bs : List B) (w₂ : World) → more (collect one items w).1 ≡ (ok bs, w₂)
        → page_then one size more items w ≡ (ok ((collect one items w).0 ++ bs), w₂)
    unfolding page_then last_page
    page_full items h k bs w₂ q =
        let some_left : nat_beq (length items) 0 ≡ false = ground arith in
        let not_last : ltb (length items) size ≡ false = ground arith in
        rw (some_left, not_last, q) refl

  abbrev after_page : List B → List B × World → Result (List B) × World
  after_page bs (cs, w) = (ok (bs ++ cs), w)

  -- The loop from one page on.
  pages-from :
      (fetch : ℕ → Io (List A)) (size : ℕ) (items : List A) (fuel n page : ℕ) (w : World)
      → 1 ≤ size
      → Serves fetch size items
      → length (rest_after size n items) < fuel
      → page ≡ n + 1
      → pages fetch one size fuel page w ≡ succeeded (collect one (rest_after size n items) w)
  unfolding pages rest_after
  pages-from fetch size items zero n page w k serves enough at = absurd (omega (arith, enough))
  pages-from fetch size items (suc fuel) n page w k serves enough at =
      let rest = rest_after size n items in
      let more = pages fetch one size fuel (page + 1) in
      let here : fetch page w ≡ (ok (take size rest), w) =
        subst (λ (p : ℕ). fetch p w ≡ (ok (take size rest), w)) (sym at) (serves n w) in
      elim (Bool-cases (ltb (length (take size rest)) size)) [
        | inl short ↦
            let whole = take_all size rest (ground arith) in
            rw (here, page_short size more w (take size rest) (ground arith), whole) refl
        | inr full ↦
            let w₁ = (collect one (take size rest) w).1 in
            let next =
              pages-from fetch size items fuel (suc n) (page + 1) w₁ k serves
                (omega (
                  arith,
                  enough,
                  length-drop size rest,
                  length-take size rest,
                  full_le size (length (take size rest)) full,
                  k,
                ))
                (omega (arith, at)) in
            rw
              (
                here,
                page_full size more w (take size rest) (full_le size (length (take size rest)) full)
                    k (collect one (drop size rest) w₁).0 (collect one (drop size rest) w₁).1 next,
              )
              (sym (
                ap succeeded (
                  ap (λ (xs : List A). collect one xs w) (sym (take-drop size rest))
                  ∙ collect-append (take size rest) (drop size rest) w)))
      ]

  -- Over a forge that serves a list in full pages, as much fuel as the list has items and one more
  -- is enough, and the loop returns what the whole list becomes, each item once and in order.
  pub pages-collect :
      (fetch : ℕ → Io (List A)) (size : ℕ) (items : List A) (fuel : ℕ) (w : World)
      → 1 ≤ size
      → Serves fetch size items
      → length items < fuel
      → pages fetch one size fuel 1 w ≡ succeeded (collect one items w)
  unfolding rest_after
  pages-collect fetch size items fuel w k serves enough =
      pages-from fetch size items fuel 0 1 w k serves enough (omega arith)
