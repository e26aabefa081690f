-- ===== src/Forge/Export.antt =====
-- The loops that the exporters of the adapters share: each item of each page is written as soon as
-- its page has been read. They run on fuel, as the loops of Forge/Paging do.
pub mod Assets
pub mod Complete
pub mod Lands
pub mod Release
use backup_git_repos.Base.{
  Text, text, ℕ, zero, suc, ◌+◌, List, [], ◌∷◌, ◌++◌, Bool, length, nat_beq, ◌==◌, list_eq, nat_eq,
  list_beq, if◌then◌else◌, Option, none, some,
}
use backup_git_repos.Error.{Err, Result, ok, err, external}
use backup_git_repos.World.{World, Io, pure, fail, settle, ◌>>=◌, ◌>>◌}
use backup_git_repos.Metadata.Write.{ReleaseAsset}
use backup_git_repos.Forge.Paging.{last_page}

-- A slice that `append` has grown from nil.
abbrev pub grown {ℓ} : {A : Type ℓ} → List A → Option (List A)
grown [] = none
grown (a ∷ items) = some (a ∷ items)

unfoldable pub linked_end : Io (Unit {0}) → Text → Io (Unit {0})
linked_end more next w = if next == [] then (ok tt, w) else more w

module _ {A : Type 0} where
  unfoldable pub each : (A → Io (Unit {0})) → List A → Io (Unit {0})
  each one [] = pure tt
  each one (a ∷ items) = let rest = each one items in do one a; rest

  -- The end of a round; `more` is the rest of the loop.
  unfoldable pub page_end : ℕ → Io (Unit {0}) → List A → Io (Unit {0})
  page_end size more items w = if last_page size items then (ok tt, w) else more w

  unfoldable pub page_round : (A → Io (Unit {0})) → ℕ → Io (Unit {0}) → List A → Io (Unit {0})
  page_round one size more [] = pure tt
  page_round one size more (a ∷ items) = do each one (a ∷ items); page_end size more (a ∷ items)

  -- The loop that ends at an empty page or one that is not full.
  unfoldable pub each_page :
      (ℕ → Io (List A)) → (A → Io (Unit {0})) → ℕ → (fuel page : ℕ) → Io (Unit {0})
  each_page fetch one size zero page = fail (external (text "fuel"))
  each_page fetch one size (suc fuel) page =
      let more = each_page fetch one size fuel (page + 1) in
      do items ← fetch page; page_round one size more items

  -- The loop that goes on as long as a page names its successor.
  unfoldable pub each_linked :
      (ℕ → Io (List A × Text)) → (A → Io (Unit {0})) → (fuel page : ℕ) → Io (Unit {0})
  each_linked fetch one zero page = fail (external (text "fuel"))
  each_linked fetch one (suc fuel) page =
      let more = each_linked fetch one fuel (page + 1) in
      do (items, next) ← fetch page; each one items; linked_end more next

module _ {A B : Type 0} where
  -- What each of some items leads to, in order.
  unfoldable pub gather : (A → Io (List B)) → List A → Io (List B)
  gather one [] = pure []
  gather one (a ∷ items) =
      let others = gather one items in do bs ← one a; rest ← others; pure (bs ++ rest)

  unfoldable pub gather_end : ℕ → Io (List B) → List A → List B → Io (List B)
  gather_end size more items bs w =
      if last_page size items
      then (ok bs, w)
      else settle (more w).0 (λ e. (err e, (more w).1)) (λ rest. (ok (bs ++ rest), (more w).1))

  unfoldable pub gather_pages :
      (ℕ → Io (List A)) → (A → Io (List B)) → ℕ → (fuel page : ℕ) → Io (List B)
  gather_pages fetch one size zero page = fail (external (text "fuel"))
  gather_pages fetch one size (suc fuel) page =
      let more = gather_pages fetch one size fuel (page + 1) in
      do items ← fetch page; bs ← gather one items; gather_end size more items bs

-- The loop over a release's assets: each is downloaded, and named with the size that was written.
unfoldable pub download_all :
    {A : Type 0} → (A → Text) → (A → Io ℕ) → List A → Io (List ReleaseAsset)
download_all name download [] = pure []
download_all name download (a ∷ assets) =
    let others = download_all name download assets in
    do size ← download a; rest ← others; pure (record { name = name a; size = size } ∷ rest)
