-- ===== src/Forge/Forgejo/Listing.antt =====
-- internal/forgejo/forgejo.go: what `ListRepos` returns.
use backup_git_repos.Base.{
  take, Text, text, ℕ, ◌+◌, ◌<◌, List, [], ◌∷◌, ◌++◌, map, Option, some, Bool, not, ◌&&◌, length,
  ◌≡◌, refl, ◌∙◌, ap, arith, inl, inr, Bool-cases, if◌then◌else◌,
}
use backup_git_repos.Error.{ok}
use backup_git_repos.World.{World, log_line, info}
use backup_git_repos.Repo.{State}
use backup_git_repos.Forge.Http.{Web, Request, Response, decode_response}
use backup_git_repos.Forge.Paging.{collect, consider}
use backup_git_repos.Forge.Paging.Complete.{rest_after, Serves, succeeded, pages-collect, selected}
use backup_git_repos.Forge.Forgejo.{
  Client, Item, page_size, to_repo, keep_repo, search_url, fetch_search_page, list_repos,
}

-- The lines that tell of the mirrors left out.
unfoldable pub log_skipped : Client → List Item → World → World
log_skipped c [] w = w
log_skipped c (i ∷ items) w = log_skipped c items (
    if c.skip_mirrors && i.mirror
    then log_line info "skipping mirror repository" i.full_name w
    else w)

abbrev pub is_kept : Client → Item → Bool
is_kept c i = not (c.skip_mirrors && i.mirror)

collect-keep_repo :
    (c : Client) (items : List Item) (w : World)
    → collect (keep_repo c) items w
      ≡ (map to_repo (selected (is_kept c) items), log_skipped c items w)
unfolding collect keep_repo consider selected log_skipped
collect-keep_repo c [] w = refl
collect-keep_repo c (i ∷ items) w = elim (Bool-cases (c.skip_mirrors && i.mirror)) [
  | inl skipped ↦
      rw
        (
          skipped,
          collect-keep_repo c items (log_line info "skipping mirror repository" i.full_name w),
        )
        refl
  | inr kept ↦ rw (kept, collect-keep_repo c items w) refl
]

module _ (web : Web) (decode : Text → Option (List Item)) (c : Client) where
  abbrev pub request : State → ℕ → Request
  request state page = record {
    url = search_url web c page state;
    headers = (text "Authorization", text "token " ++ c.token) ∷ [];
  }

  -- Forgejo, with these repositories of a state: page by page, 50 at a time.
  abbrev pub Answers : State → List Item → Type 0
  Answers state items =
      (n : ℕ) (w : World)
      → (r : Response) × (web.send (request state (n + 1)) w ≡ (ok r, w))
        × (r.status ≡ 200)
        × (decode r.body ≡ some (take page_size (rest_after page_size n items)))

  decode_good :
      (items : List Item) (r : Response)
      → r.status ≡ 200
      → decode r.body ≡ some items
      → decode_response decode r ≡ ok (items, r)
  unfolding decode_response
  decode_good items r good decoded = simp (good, decoded)

  fetch_page :
      (state : State) (items : List Item) (page : ℕ) (w : World) (r : Response)
      → web.send (request state page) w ≡ (ok r, w)
      → decode_response decode r ≡ ok (items, r)
      → fetch_search_page web decode c state page w ≡ (ok items, w)
  unfolding fetch_search_page
  fetch_page state items page w r sent good = rw (sent, good) refl

  -- The listing is every repository that Forgejo returns, each once and in its order, over any number
  -- of pages, less the mirrors where they are to be skipped; the log tells of each one left out.
  pub list_repos_kept :
      (state : State) (items : List Item) (fuel : ℕ) (w : World)
      → Answers state items
      → length items < fuel
      → list_repos web decode c fuel state w
        ≡ (ok (map to_repo (selected (is_kept c) items)), log_skipped c items w)
  unfolding list_repos page_size
  list_repos_kept state items fuel w answers enough =
      let serves : Serves (keep_repo c) (fetch_search_page web decode c state) page_size items =
        λ n v.
          (let (r, sent, good, decoded) = answers n v in
            let page = take page_size (rest_after page_size n items) in
            fetch_page state page (n + 1) v r sent (decode_good page r good decoded)) in
      pages-collect (keep_repo c) (fetch_search_page web decode c state) page_size items fuel w
        (omega arith) serves enough
      ∙ ap succeeded (collect-keep_repo c items w)
