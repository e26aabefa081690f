-- ===== src/Forge/Forgejo.antt =====
-- internal/forgejo/forgejo.go: the listing of the repositories of a Forgejo instance.
pub mod Issues
pub mod Listing
pub mod PullRequests
pub mod Releases
use backup_git_repos.Base.{
  Text, text, ℕ, List, [], ◌∷◌, ◌++◌, Option, none, some, Bool, true, false, not, ◌&&◌,
  if◌then◌else◌,
}
use backup_git_repos.Error.{Err, Result, ok, err, wrap, external}
use backup_git_repos.World.{World, Io, pure, fail, wrapping, settle, ◌>>=◌, ◌>>◌, info, log_line}
use backup_git_repos.Repo.{Repo, State, state_all, state_active, state_archived}
use backup_git_repos.Run.Types.{Remote}
use backup_git_repos.Forge.Http.{Web, Url, Request, Response, basic, decode_response}
use backup_git_repos.Forge.Paging.{pages}

pub record Client : Type 0 where
  pub base_url : Text
  pub token : Text
  pub skip_mirrors : Bool

unfoldable pub page_size : ℕ
page_size = 50

-- `New`
unfoldable pub new_client : Web → Text → Text → Result Client
new_client web base token =
    if web.valid_url base
    then ok (record { base_url = base; token = token; skip_mirrors = false })
    else err (wrap (text "parse forgejo url") (external (text "url")))

unfoldable pub remote : Web → Client → Repo → Remote
remote web c r = record {
  clone_url = web.join_url c.base_url (r.path ++ text ".git");
  auth_header = text "Basic " ++ basic web (text "backup-git-repos") c.token;
}

-- `repo`, an item of `searchResponse`.
pub record Item : Type 0 where
  pub full_name : Text
  pub archived : Bool
  pub empty : Bool
  pub mirror : Bool

unfoldable pub to_repo : Item → Repo
to_repo i = record { path = i.full_name; archived = i.archived; empty = i.empty }

-- One round of the loop over a page.
unfoldable pub keep_repo : Client → Item → World → Option Repo × World
keep_repo c i w =
    if c.skip_mirrors && i.mirror
    then (none, log_line info "skipping mirror repository" i.full_name w)
    else (some (to_repo i), w)

-- The parameter of the query that filters by state; it is left out for all.
unfoldable pub archived_query : State → List (Text × Text)
archived_query state_all = []
archived_query state_active = (text "archived", text "false") ∷ []
archived_query state_archived = (text "archived", text "true") ∷ []

unfoldable pub search_url : Web → Client → ℕ → State → Url
search_url web c page state = record {
  base = c.base_url;
  path = text "/api/v1/repos/search";
  query = (text "limit", web.itoa page_size) ∷ (text "page", web.itoa page) ∷ archived_query state;
}

module _ (web : Web) (decode : Text → Option (List Item)) (c : Client) where
  unfoldable pub fetch_search_page : State → ℕ → Io (List Item)
  fetch_search_page state page = wrapping (text "list forgejo repos") (do
    response ← web.send (record {
      url = search_url web c page state;
      headers = (text "Authorization", text "token " ++ c.token) ∷ [];
    })
    (items, r) ← λ w. (decode_response decode response, w)
    pure items)

  unfoldable pub list_repos : ℕ → State → Io (List Repo)
  list_repos fuel state = pages (fetch_search_page state) (keep_repo c) page_size fuel 1
