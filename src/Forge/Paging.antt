-- ===== src/Forge/Paging.antt =====
-- The loops by which the adapters read a listing page by page: until an empty page or one that is
-- not full, or until a page names no successor. A forge need never come to an end, so a loop runs on fuel.
pub mod Complete
pub mod Linked
use backup_git_repos.Base.{
  Text, text, ℕ, zero, suc, ◌+◌, List, [], ◌∷◌, ◌++◌, Option, none, some, Bool, true, false, length,
  ltb, nat_beq, ◌==◌, list_eq, nat_eq, list_beq, if◌then◌else◌,
}
use backup_git_repos.Error.{Err, Result, ok, err, external}
use backup_git_repos.World.{World, Io, pure, fail, settle, ◌>>=◌}

unfoldable pub consider {ℓ} : {B : Type ℓ} → Option B → List B → List B
consider none bs = bs
consider (some b) bs = b ∷ bs

-- An item that every page keeps.
abbrev pub keep_all {ℓ κ} : {A : Type ℓ} {B : Type κ} → (A → B) → A → World → Option B × World
keep_all f a w = (some (f a), w)

unfoldable pub last_page {ℓ} : {A : Type ℓ} → ℕ → List A → Bool
last_page size items = ltb (length items) size

module _ {A B : Type 0} where
  -- What a page's items become; an item may be dropped, and the log told of it.
  unfoldable pub collect : (A → World → Option B × World) → List A → World → List B × World
  collect one [] w = ([], w)
  collect one (a ∷ items) w =
      let (kept, w₁) = one a w in let (rest, w₂) = collect one items w₁ in (consider kept rest, w₂)

  -- `more` is the rest of the loop.
  unfoldable pub page_then :
      (A → World → Option B × World) → ℕ → Io (List B) → List A → World → Result (List B) × World
  page_then one size more items w =
      if nat_beq (length items) 0
      then (ok [], w)
      else let (kept, w₁) = collect one items w in
        if last_page size items
        then (ok kept, w₁)
        else settle (more w₁).0 (λ e. (err e, (more w₁).1))
            (λ rest. (ok (kept ++ rest), (more w₁).1))

  unfoldable pub pages :
      (ℕ → Io (List A)) → (A → World → Option B × World) → ℕ → (fuel page : ℕ) → Io (List B)
  pages fetch one size zero page = fail (external (text "fuel"))
  pages fetch one size (suc fuel) page =
      let more = pages fetch one size fuel (page + 1) in
      do items ← fetch page; page_then one size more items

unfoldable pub next_then {ℓ} : {B : Type ℓ} → Io (List B) → List B → Text → Io (List B)
next_then more items next w =
    if next == []
    then (ok items, w)
    else settle (more w).0 (λ e. (err e, (more w).1)) (λ rest. (ok (items ++ rest), (more w).1))

-- The loop that goes on as long as a page names its successor.
unfoldable pub linked_pages {ℓ} :
    {B : Type ℓ} → (ℕ → Io (List B × Text)) → (fuel page : ℕ) → Io (List B)
linked_pages fetch zero page = fail (external (text "fuel"))
linked_pages fetch (suc fuel) page =
    let more = linked_pages fetch fuel (page + 1) in
    do (items, next) ← fetch page; next_then more items next
