-- ===== src/Forge/GitLab/Linked.antt =====
-- internal/gitlab/gitlab.go: `getOptional` over answers whose header names the next page.
use backup_git_repos.Base.{
  Text, text, ℕ, suc, length, ◌+◌, List, [], ◌∷◌, ◌++◌, map, Option, some, ◌≡◌, refl, sym, ◌∙◌, ap,
}
use backup_git_repos.Error.{ok}
use backup_git_repos.World.{World, Io}
use backup_git_repos.Forge.Http.{Web, Url, Response, decode_response}
use backup_git_repos.Forge.Paging.Linked.{Links, concat}
use backup_git_repos.Forge.GitLab.{Client, get_request, accept_optional, get_optional}

pub length-map : {A B : Type 0} (f : A → B) (xs : List A) → length (map f xs) ≡ length xs
length-map f [] = refl
length-map f (x ∷ xs) = ap suc (length-map f xs)

-- What a function that keeps `++` makes of joined lists.
pub concat-map :
    {A B : Type 0} (f : List A → List B)
    → f [] ≡ []
    → ((xs ys : List A) → f (xs ++ ys) ≡ f xs ++ f ys)
    → (listing : List (List A)) → concat (map f listing) ≡ f (concat listing)
unfolding concat
concat-map f nil append [] = sym nil
concat-map f nil append (items ∷ more) =
    ap (λ ys. f items ++ ys) (concat-map f nil append more) ∙ sym (append items (concat more))

module _ (web : Web) (c : Client) {A : Type 0} (decode : Text → Option (List A)) where
  -- GitLab answers a request with these items and this next page, and does nothing else.
  abbrev pub LinkReplies : Url → List A → Text → Type 0
  LinkReplies url items next =
      (w : World)
      → (r : Response) × (web.send (get_request web c url) w ≡ (ok r, w))
        × (r.status ≡ 200)
        × (decode r.body ≡ some items)
        × (r.header (text "x-next-page") ≡ next)

  -- From one page on, these pages: all but the last name a successor.
  abbrev pub LinkedPages : (ℕ → Url) → ℕ → List (List A) → Type 0
  LinkedPages url page [] = ⊥
  LinkedPages url page (items ∷ []) = LinkReplies (url page) items []
  LinkedPages url page (items ∷ next ∷ more) =
      ((first : ℕ) × (rest : Text) × LinkReplies (url page) items (first ∷ rest))
      × LinkedPages url (page + 1) (next ∷ more)

  accepts :
      (project : Text) (r : Response) (items : List A) (next : Text) (w : World)
      → r.status ≡ 200
      → decode r.body ≡ some items
      → r.header (text "x-next-page") ≡ next
      → accept_optional web c decode project r w ≡ (ok (items, next), w)
  unfolding accept_optional decode_response
  accepts project r items next w good decoded linked =
      rw (good, decoded) (ap (λ (t : Text). (ok (items, t), w)) linked)

  pub get_optional-LinkReplies :
      (url : Url) (project : Text) (items : List A) (next : Text) (w : World)
      → LinkReplies url items next
      → get_optional web c decode url project w ≡ (ok (items, next), w)
  unfolding get_optional
  get_optional-LinkReplies url project items next w replies =
      let (r, sent, good, decoded, linked) = replies w in
      rw (sent, accepts project r items next w good decoded linked) refl

  pub LinkedPages-Links :
      {B : Type 0} (url : ℕ → Url) (fetch : ℕ → Io (List B × Text)) (f : List A → List B)
      → ((page : ℕ) (items : List A) (next : Text)
          → LinkReplies (url page) items next
          → (w : World) → fetch page w ≡ (ok (f items, next), w))
      → (page : ℕ) (listing : List (List A)) → LinkedPages url page listing
      → Links fetch page (map f listing)
  LinkedPages-Links url fetch f fetched page [] linked = linked
  LinkedPages-Links url fetch f fetched page (items ∷ []) linked = fetched page items [] linked
  LinkedPages-Links url fetch f fetched page (items ∷ next ∷ more) ((first, rest, here), linked) = (
    (first, rest, fetched page items (first ∷ rest) here),
    LinkedPages-Links url fetch f fetched (page + 1) (next ∷ more) linked,
  )
