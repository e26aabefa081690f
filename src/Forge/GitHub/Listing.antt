-- ===== src/Forge/GitHub/Listing.antt =====
-- internal/github/github.go: what `ListRepos` returns.
use backup_git_repos.Base.{
  take, Text, text, ℕ, suc, ◌+◌, ◌<◌, List, [], ◌∷◌, map, Option, some, nat_beq, length, ◌≡◌, refl,
  ◌∙◌, ap, arith, inl, inr, Bool-cases, All, ◌≢◌, split_on, list_beq_iff, list_eq, nat_eq, false,
}
use backup_git_repos.Error.{ok, err, missing_repo_scope}
use backup_git_repos.World.{World}
use backup_git_repos.Mirror.{trim_space}
use backup_git_repos.Repo.{State}
use backup_git_repos.Forge.Http.{Web, Request, Response, decode_response}
use backup_git_repos.Forge.Paging.{collect, consider, pages}
use backup_git_repos.Forge.Paging.Complete.{rest_after, Serves, succeeded, pages-collect, selected}
use backup_git_repos.Forge.GitHub.{
  Client, Item, page_size, wants_state, to_repo, filter_repo, check_repo_scope, has_scope,
  repos_url, headers, fetch_repos_page, checked_page, list_repos,
}

module _ (web : Web) (decode : Text → Option (List Item)) (c : Client) where
  abbrev pub request : ℕ → Request
  request page = record { url = repos_url web c page; headers = headers c }

  -- A response that is a page of these items, for a token of these scopes.
  pub record IsPage (items : List Item) (scopes : Text) (r : Response) : Type 0 where
    pub good : r.status ≡ 200
    pub decoded : decode r.body ≡ some items
    pub granted : r.header (text "X-OAuth-Scopes") ≡ scopes

  -- GitHub, with these repositories and a token of these scopes: page by page, 100 at a time.
  abbrev pub Answers : List Item → Text → Type 0
  Answers items scopes =
      (n : ℕ) (w : World)
      → (r : Response) × (web.send (request (n + 1)) w ≡ (ok r, w))
        × IsPage (take page_size (rest_after page_size n items)) scopes r

  decode_response-IsPage :
      (items : List Item) (scopes : Text) (r : Response)
      → IsPage items scopes r
      → decode_response decode r ≡ ok (items, r)
  unfolding decode_response
  decode_response-IsPage items scopes r p = simp (p.good, p.decoded)

  fetch_page :
      (items : List Item) (scopes : Text) (page : ℕ) (w : World) (r : Response)
      → web.send (request page) w ≡ (ok r, w)
      → IsPage items scopes r
      → fetch_repos_page web decode c page w ≡ (ok (items, scopes), w)
  unfolding fetch_repos_page
  fetch_page items scopes page w r sent p =
      rw (sent, decode_response-IsPage items scopes r p)
        (ap (λ (s : Text). (ok (items, s), w)) p.granted)

  checked :
      (items : List Item) (scopes : Text) (page : ℕ) (w : World)
      → fetch_repos_page web decode c page w ≡ (ok (items, scopes), w)
      → check_repo_scope scopes ≡ ok tt
      → checked_page web decode c page w ≡ (ok items, w)
  unfolding checked_page
  checked items scopes page w h k = elim (Bool-cases (nat_beq page 1)) [
    | inl first ↦ rw (h, first, k) refl
    | inr later ↦ rw (h, later) refl
  ]

  collect-filter_repo :
      (state : State) (items : List Item) (w : World)
      → collect (filter_repo state) items w
        ≡ (map to_repo (selected (λ (i : Item). wants_state state i.archived) items), w)
  unfolding collect filter_repo consider selected
  collect-filter_repo state [] w = refl
  collect-filter_repo state (i ∷ items) w = elim (Bool-cases (wants_state state i.archived)) [
    | inl kept ↦ rw (kept, collect-filter_repo state items w) refl
    | inr dropped ↦ rw (dropped, collect-filter_repo state items w) refl
  ]

  -- For a token whose scopes are enough, the listing is every repository of the wanted state, each
  -- once and in GitHub's order, over any number of pages; the fuel needed is one more than they are.
  pub list_repos_complete :
      (items : List Item) (scopes : Text) (fuel : ℕ) (state : State) (w : World)
      → Answers items scopes
      → check_repo_scope scopes ≡ ok tt
      → length items < fuel
      → list_repos web decode c fuel state w
        ≡ (ok (map to_repo (selected (λ (i : Item). wants_state state i.archived) items)), w)
  unfolding list_repos page_size
  list_repos_complete items scopes fuel state w answers enough_scope enough =
      let serves : Serves (filter_repo state) (checked_page web decode c) page_size items = λ n v.
        (let (r, sent, p) = answers n v in
          let page = take page_size (rest_after page_size n items) in
          checked page scopes (n + 1) v (fetch_page page scopes (n + 1) v r sent p) enough_scope) in
      pages-collect (filter_repo state) (checked_page web decode c) page_size items fuel w
        (omega arith) serves enough
      ∙ ap succeeded (collect-filter_repo state items w)

  has_scope-none :
      (scopes : List Text) → All (λ s. trim_space s ≢ text "repo") scopes → has_scope scopes ≡ false
  unfolding has_scope
  has_scope-none [] h = refl
  has_scope-none (s ∷ scopes) h =
      ground (arith, list_beq_iff (trim_space s) (text "repo"), h.0, has_scope-none scopes h.1)

  check_repo_scope-refused :
      (scopes : Text)
      → scopes ≢ []
      → All (λ s. trim_space s ≢ text "repo") (split_on b',' scopes)
      → check_repo_scope scopes ≡ err missing_repo_scope
  unfolding check_repo_scope
  check_repo_scope-refused scopes some_scope h =
      ground (arith, list_beq_iff scopes [], some_scope, has_scope-none (split_on b',' scopes) h)

  -- A token whose scopes are told, separated by commas, and none of which is `repo`, is refused on the first page, before any other is asked for.
  pub list_repos_missing_scope :
      (items : List Item) (scopes : Text) (fuel : ℕ) (state : State) (w w' : World) (r : Response)
      → web.send (request 1) w ≡ (ok r, w')
      → IsPage items scopes r
      → scopes ≢ []
      → All (λ s. trim_space s ≢ text "repo") (split_on b',' scopes)
      → list_repos web decode c (suc fuel) state w ≡ (err missing_repo_scope, w')
  unfolding list_repos pages checked_page fetch_repos_page
  list_repos_missing_scope items scopes fuel state w w' r sent p told none =
      rw (sent, decode_response-IsPage items scopes r p)
        (simp (p.granted, check_repo_scope-refused scopes told none))
