-- ===== src/Forge/GitHub.antt =====
-- internal/github/github.go: the listing of the repositories of GitHub.com.
pub mod Listing
pub mod Issues
pub mod PullRequests
pub mod Releases
use backup_git_repos.Base.{
  Text, text, ℕ, List, [], ◌∷◌, ◌++◌, Option, none, some, Bool, true, false, not, ◌==◌, list_eq,
  nat_eq, nat_beq, list_beq, split_on, if◌then◌else◌,
}
use backup_git_repos.Error.{Err, Result, ok, err, wrap, missing_repo_scope, external}
use backup_git_repos.World.{World, Io, pure, fail, wrapping, settle, ◌>>=◌, ◌>>◌}
use backup_git_repos.Repo.{Repo, State, state_all, state_active, state_archived}
use backup_git_repos.Run.Types.{Remote}
use backup_git_repos.Mirror.{trim_space}
use backup_git_repos.Forge.Http.{Web, Url, Request, Response, basic, decode_response}
use backup_git_repos.Forge.Paging.{pages}

-- `Client`; the HTTP client is the parameter.
pub record Client : Type 0 where
  pub base_url : Text
  pub token : Text

unfoldable pub page_size : ℕ
page_size = 100

-- `New`
unfoldable pub new_client : Web → Text → Text → Result Client
new_client web base token =
    let chosen = if base == [] then text "https://api.github.com" else base in
    if web.valid_url chosen
    then ok (record { base_url = chosen; token = token })
    else err (wrap (text "parse github url") (external (text "url")))

unfoldable pub remote : Web → Client → Repo → Remote
remote web c r = record {
  clone_url = web.join_url (text "https://github.com") (r.path ++ text ".git");
  auth_header = text "Basic " ++ basic web c.token [];
}

-- `repo`, an item of the response.
pub record Item : Type 0 where
  pub full_name : Text
  pub archived : Bool
  pub size : ℕ

unfoldable pub wants_state : State → Bool → Bool
wants_state state_active archived = not archived
wants_state state_archived archived = archived
wants_state state_all archived = true

unfoldable pub to_repo : Item → Repo
to_repo i = record { path = i.full_name; archived = i.archived; empty = nat_beq i.size 0 }

-- One round of `filterRepos`.
unfoldable pub filter_repo : State → Item → World → Option Repo × World
filter_repo state i w = (if wants_state state i.archived then some (to_repo i) else none, w)

unfoldable pub has_scope : List Text → Bool
has_scope [] = false
has_scope (s ∷ scopes) = if trim_space s == text "repo" then true else has_scope scopes

unfoldable pub check_repo_scope : Text → Result (Unit {0})
check_repo_scope raw =
    if raw == []
    then ok tt
    else if has_scope (split_on b',' raw)
    then ok tt
    else err missing_repo_scope

unfoldable pub repos_url : Web → Client → ℕ → Url
repos_url web c page = record {
  base = c.base_url;
  path = text "/user/repos";
  query =
      (text "affiliation", text "owner,collaborator,organization_member")
      ∷ (text "per_page", web.itoa page_size)
      ∷ (text "page", web.itoa page)
      ∷ [];
}

unfoldable pub headers : Client → List (Text × Text)
headers c =
    (text "Authorization", text "Bearer " ++ c.token)
    ∷ (text "Accept", text "application/vnd.github+json")
    ∷ (text "X-GitHub-Api-Version", text "2022-11-28")
    ∷ []

module _ (web : Web) (decode : Text → Option (List Item)) (c : Client) where
  -- A page's items with the value of X-OAuth-Scopes.
  unfoldable pub fetch_repos_page : ℕ → Io (List Item × Text)
  fetch_repos_page page = wrapping (text "list github repos") (do
    response ← web.send (record { url = repos_url web c page; headers = headers c })
    (items, r) ← λ w. (decode_response decode response, w)
    pure (items, r.header (text "X-OAuth-Scopes")))

  -- The scopes are looked at on the first page.
  unfoldable pub checked_page : ℕ → Io (List Item)
  checked_page page = do
    (items, scopes) ← fetch_repos_page page
    λ w. ((if nat_beq page 1 then check_repo_scope scopes else ok tt), w)
    pure items

  unfoldable pub list_repos : ℕ → State → Io (List Repo)
  list_repos fuel state = pages checked_page (filter_repo state) page_size fuel 1
