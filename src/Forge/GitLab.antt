-- ===== src/Forge/GitLab.antt =====
-- internal/gitlab/gitlab.go, wiki.go and snippet.go: the projects of a GitLab instance with their
-- wikis and snippets. The lookups of a page run side by side in the source and land in the order of
-- the page; here they are made in that order.
pub mod Issues
pub mod Linked
pub mod Listing
pub mod MergeRequests
pub mod Releases
use backup_git_repos.Base.{
  Text, text, ℕ, zero, suc, ◌+◌, List, [], ◌∷◌, ◌++◌, map, Option, none, some, Bool, true, false,
  not, ◌==◌, list_eq, nat_eq, nat_beq, list_beq, if◌then◌else◌,
}
use backup_git_repos.Error.{Err, Result, ok, err, wrap, external}
use backup_git_repos.World.{World, Io, pure, fail, wrapping, settle, ◌>>=◌, ◌>>◌, info, log_line}
use backup_git_repos.Repo.{Repo, State, state_all, state_active, state_archived}
use backup_git_repos.Run.Types.{Remote}
use backup_git_repos.Forge.Http.{Web, Url, Request, Response, basic, decode_response}
use backup_git_repos.Forge.Paging.{linked_pages}

pub record Client : Type 0 where
  pub base_url : Text
  pub token : Text

unfoldable pub page_size : ℕ
page_size = 100

-- `New`
unfoldable pub new_client : Web → Text → Text → Result Client
new_client web base token =
    if web.valid_url base
    then ok (record { base_url = base; token = token })
    else err (wrap (text "parse gitlab url") (external (text "url")))

unfoldable pub remote : Web → Client → Repo → Remote
remote web c r = record {
  clone_url = web.join_url c.base_url (r.path ++ text ".git");
  auth_header = text "Basic " ++ basic web (text "oauth2") c.token;
}

pub record Project : Type 0 where
  pub path_with_namespace : Text
  pub archived : Bool
  pub empty_repo : Bool

-- The JSON decoder at the three types that it is used at: a wiki page is its slug, a snippet its id.
pub record Decoders : Type 0 where
  pub projects : Text → Option (List Project)
  pub wiki_pages : Text → Option (List Text)
  pub snippets : Text → Option (List ℕ)

unfoldable pub project_repo : Project → Repo
project_repo p = record {
  path = p.path_with_namespace;
  archived = p.archived;
  empty = p.empty_repo;
}

unfoldable pub bool_text : Bool → Text
bool_text true = text "true"
bool_text false = text "false"

unfoldable pub projects_url : Web → Client → ℕ → Bool → Url
projects_url web c page archived = record {
  base = c.base_url;
  path = text "/api/v4/projects";
  query =
      (text "membership", text "true")
      ∷ (text "per_page", web.itoa page_size)
      ∷ (text "page", web.itoa page)
      ∷ (text "archived", bool_text archived)
      ∷ [];
}

unfoldable pub project_sub_url : Web → Client → Text → Text → ℕ → Url
project_sub_url web c path sub page = record {
  base = c.base_url;
  path = text "/api/v4/projects/" ++ (web.path_escape path ++ (text "/" ++ sub));
  query = (text "per_page", web.itoa page_size) ∷ (text "page", web.itoa page) ∷ [];
}

module _ (web : Web) (c : Client) where
  unfoldable pub get_request : Url → Request
  get_request url = record { url = url; headers = (text "PRIVATE-TOKEN", c.token) ∷ [] }

  -- The items and the value of x-next-page; a 403 counts as no items at all.
  unfoldable pub accept_optional {ℓ} :
      {A : Type ℓ}
      → (Text → Option (List A))
      → Text
      → Response
      → World
      → Result (List A × Text) × World
  accept_optional decode project r w =
      if nat_beq r.status 403
      then (
        ok ([], []),
        log_line info "gitlab project resource not accessible, treating as empty" project w,
      )
      else elim (decode_response decode r) [
        | ok (items, r') ↦ (ok (items, r'.header (text "x-next-page")), w)
        | err e ↦ (err e, w)
      ]

  unfoldable pub get_optional :
      {A : Type 0} → (Text → Option (List A)) → Url → Text → Io (List A × Text)
  get_optional decode url project = do
    response ← wrapping (text "get") (web.send (get_request url))
    accept_optional decode project response

  module _ (decoders : Decoders) where
    unfoldable pub fetch_projects_page : Bool → ℕ → Io (List Project × Text)
    fetch_projects_page archived page = wrapping (text "list gitlab projects") (do
      response ← web.send (get_request (projects_url web c page archived))
      (projects, r) ← λ w. (decode_response decoders.projects response, w)
      pure (projects, r.header (text "x-next-page")))

    -- The wiki of a project, where its first page shows that it has one.
    unfoldable pub wiki_of : Project → List Text → List Repo
    wiki_of p [] = []
    wiki_of p (slug ∷ slugs) =
        record {
          path = p.path_with_namespace ++ text ".wiki";
          archived = p.archived;
          empty = false;
        }
        ∷ []

    unfoldable pub wiki_repo : Project → Io (List Repo)
    wiki_repo p = do
      (slugs, next) ← wrapping (text "list gitlab wiki pages") (
          get_optional decoders.wiki_pages
            (project_sub_url web c p.path_with_namespace (text "wikis") 1) p.path_with_namespace)
      pure (wiki_of p slugs)

    unfoldable pub snippet_repo : Project → ℕ → Repo
    snippet_repo p id = record {
      path = p.path_with_namespace ++ (text "/snippets/" ++ web.itoa id);
      archived = p.archived;
      empty = false;
    }

    unfoldable pub snippets_page : Project → ℕ → Io (List Repo × Text)
    snippets_page p page = do
      (ids, next) ← wrapping (text "list gitlab snippets") (
          get_optional decoders.snippets
            (project_sub_url web c p.path_with_namespace (text "snippets") page)
            p.path_with_namespace)
      pure (map (snippet_repo p) ids, next)

    unfoldable pub snippet_repos : ℕ → Project → Io (List Repo)
    snippet_repos fuel p = linked_pages (snippets_page p) fuel 1

    unfoldable pub project_detail : ℕ → Project → Io (List Repo)
    project_detail fuel p = do
      wiki ← wiki_repo p
      snippets ← snippet_repos fuel p
      pure (project_repo p ∷ wiki ++ snippets)

    unfoldable pub details : ℕ → List Project → Io (List Repo)
    details fuel [] = pure []
    details fuel (p ∷ projects) =
        let others = details fuel projects in
        do repos ← project_detail fuel p; rest ← others; pure (repos ++ rest)

    unfoldable pub project_repos : ℕ → List Project → Io (List Repo)
    project_repos fuel projects = wrapping (text "resolve project details") (details fuel projects)

    unfoldable pub projects_page : ℕ → Bool → ℕ → Io (List Repo × Text)
    projects_page fuel archived page = do
      (projects, next) ← fetch_projects_page archived page
      repos ← project_repos fuel projects
      pure (repos, next)

    unfoldable pub list_by_archived : ℕ → Bool → Io (List Repo)
    list_by_archived fuel archived = linked_pages (projects_page fuel archived) fuel 1

    unfoldable pub list_repos : ℕ → State → Io (List Repo)
    list_repos fuel state_all = do
      active ← list_by_archived fuel false
      archived ← list_by_archived fuel true
      pure (active ++ archived)
    list_repos fuel state_active = list_by_archived fuel false
    list_repos fuel state_archived = list_by_archived fuel true
