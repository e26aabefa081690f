-- ===== src/Tests/Forge.antt =====
-- The theorems on the listings of the forges, at forges of a few repositories.
use backup_git_repos.Base.{
  take, list_beq_iff, Text, text, All, ◌≢◌, ℕ, ◌+◌, ◌-◌, List, [], ◌∷◌, ◌++◌, ◌≡◌, refl, ap, arith,
  false, true, if◌then◌else◌, ◌==◌, list_eq, nat_eq, some, none, Option, list_beq, split_on,
  push_first,
}
use backup_git_repos.Error.{ok, err, missing_repo_scope}
use backup_git_repos.World
use backup_git_repos.World.{World, Io, info}
use backup_git_repos.Repo.{Repo, state_active}
use backup_git_repos.Mirror
use backup_git_repos.Forge.Http.{Web, Response, decode_response}
use backup_git_repos.Forge.Paging.{linked_pages}
use backup_git_repos.Forge.Paging.Complete.{rest_after, selected}
use backup_git_repos.Forge.Paging.Linked.{Links, linked_pages-concat, concat}
use backup_git_repos.Forge.GitHub
use backup_git_repos.Forge.GitHub.Listing as GitHubListing
use backup_git_repos.Forge.GitHub.Listing.{list_repos_complete, list_repos_missing_scope}
use backup_git_repos.Forge.Forgejo
use backup_git_repos.Forge.Forgejo.Listing as ForgejoListing
use backup_git_repos.Forge.Forgejo.Listing.{list_repos_kept}
use backup_git_repos.Forge.GitLab
use backup_git_repos.Forge.GitLab.Linked.{LinkReplies, LinkedPages}
use backup_git_repos.Forge.GitLab.Listing.{IsWiki, project_detail_lists, project_detail_forbidden}
use backup_git_repos.Tests.{sample_world}

-- The page that a query asks for.
abbrev pub page_value : List (Text × Text) → Text
page_value [] = []
page_value ((name, value) ∷ query) = if name == text "page" then value else page_value query

-- An HTTP client whose responses hold the page that was asked for.
abbrev pub paging_web : ℕ → Text → Web
paging_web status scopes = record {
  send = λ request w. (
    ok (record {
      status = status;
      header = λ name. scopes;
      body = page_value request.url.query;
      broken = none;
    }),
    w,
  );
  valid_url = λ url. true;
  join_url = λ base path. base ++ (text "/" ++ path);
  url_path = λ url. some url;
  rehost = λ base url. base;
  path_escape = λ path. path;
  itoa = λ n. n ∷ [];
  base64 = λ bytes. bytes;
}

abbrev pub github_items : List GitHub.Item
github_items =
    record { full_name = text "o/a"; archived = false; size = 3 }
    ∷ record { full_name = text "o/b"; archived = true; size = 0 }
    ∷ []

abbrev pub github_decode : Text → Option (List GitHub.Item)
github_decode [] = none
github_decode (page ∷ body) = some (take 100 (rest_after 100 (page - 1) github_items))

abbrev pub github_client : GitHub.Client
github_client = record { base_url = text "https://api.github.com"; token = text "t" }

abbrev granted : Text
granted = text "gist, repo"

github-Answers :
    GitHubListing.Answers (paging_web 200 granted) github_decode github_client github_items granted
unfolding GitHub.page_size GitHub.repos_url list_beq
github-Answers n w = (
  record { status = 200; header = λ name. granted; body = (n + 1) ∷ []; broken = none },
  refl,
  record {
    good = refl;
    decoded = ap (λ k. some (take 100 (rest_after 100 k github_items))) (omega arith);
    granted = refl;
  },
)

granted_scope : GitHub.check_repo_scope granted ≡ ok tt
unfolding GitHub.check_repo_scope GitHub.has_scope split_on list_beq push_first Mirror.trim_space
    Mirror.trim_left Mirror.is_space
granted_scope = refl

list_repos_complete_example :
    GitHub.list_repos
      (paging_web 200 granted)
      github_decode
      github_client
      3
      state_active
      sample_world
    ≡ (ok (record { path = text "o/a"; archived = false; empty = false } ∷ []), sample_world)
unfolding selected GitHub.wants_state GitHub.to_repo
list_repos_complete_example =
    list_repos_complete (paging_web 200 granted) github_decode github_client github_items granted 3
      state_active sample_world github-Answers granted_scope (omega arith)

no_repo_scope : All (λ s. Mirror.trim_space s ≢ text "repo") (split_on b',' (text "gist"))
unfolding split_on push_first list_beq Mirror.trim_space Mirror.trim_left Mirror.is_space
no_repo_scope = ((λ h. cc ((list_beq_iff (text "gist") (text "repo")).1 h)), tt)

list_repos_missing_scope_example :
    GitHub.list_repos
      (paging_web 200 (text "gist"))
      github_decode
      github_client
      3
      state_active
      sample_world
    ≡ (err missing_repo_scope, sample_world)
unfolding GitHub.repos_url take rest_after list_beq
list_repos_missing_scope_example =
    list_repos_missing_scope (paging_web 200 (text "gist")) github_decode github_client github_items
      (text "gist") 2 state_active sample_world sample_world
      (record { status = 200; header = λ name. text "gist"; body = 1 ∷ []; broken = none }) refl
      (record { good = refl; decoded = refl; granted = refl }) (λ h. cc h) no_repo_scope

abbrev forgejo_items : List Forgejo.Item
forgejo_items =
    record { full_name = text "o/a"; archived = false; empty = false; mirror = true }
    ∷ record { full_name = text "o/b"; archived = false; empty = true; mirror = false }
    ∷ []

abbrev pub forgejo_decode : Text → Option (List Forgejo.Item)
forgejo_decode [] = none
forgejo_decode (page ∷ body) = some (take 50 (rest_after 50 (page - 1) forgejo_items))

abbrev forgejo_client : Forgejo.Client
forgejo_client = record { base_url = text "https://forge"; token = text "t"; skip_mirrors = true }

forgejo-Answers :
    ForgejoListing.Answers
      (paging_web 200 [])
      forgejo_decode
      forgejo_client
      state_active
      forgejo_items
unfolding Forgejo.page_size Forgejo.search_url list_beq
forgejo-Answers n w = (
  record { status = 200; header = λ name. []; body = (n + 1) ∷ []; broken = none },
  refl,
  refl,
  ap (λ k. some (take 50 (rest_after 50 k forgejo_items))) (omega arith),
)

list_repos_kept_example :
    Forgejo.list_repos (paging_web 200 []) forgejo_decode forgejo_client 3 state_active sample_world
    ≡ (
      ok (record { path = text "o/b"; archived = false; empty = true } ∷ []),
      record sample_world { log = (info, "skipping mirror repository", text "o/a") ∷ [] },
    )
unfolding selected Forgejo.to_repo ForgejoListing.log_skipped World.log_line
list_repos_kept_example =
    list_repos_kept (paging_web 200 []) forgejo_decode forgejo_client state_active forgejo_items 3
      sample_world forgejo-Answers (omega arith)

abbrev project : GitLab.Project
project = record { path_with_namespace = text "g/p"; archived = true; empty_repo = false }

abbrev gitlab_client : GitLab.Client
gitlab_client = record { base_url = text "https://gitlab"; token = text "t" }

-- Every page of a wiki has one entry, and every page of snippets two.
abbrev pub gitlab_decoders : GitLab.Decoders
gitlab_decoders = record {
  projects = λ body. some (project ∷ []);
  wiki_pages = λ body. some (text "home" ∷ []);
  snippets = λ body. some (49 ∷ 50 ∷ []);
}

abbrev wiki : Repo
wiki = record { path = text "g/p.wiki"; archived = true; empty = false }

abbrev snippet : ℕ → Repo
snippet id = record { path = text "g/p/snippets/" ++ id ∷ []; archived = true; empty = false }

snippets-Links :
    Links
      (GitLab.snippets_page (paging_web 200 []) gitlab_client gitlab_decoders project)
      1
      ((snippet 49 ∷ snippet 50 ∷ []) ∷ [])
unfolding GitLab.snippets_page GitLab.snippet_repo GitLab.get_optional GitLab.accept_optional
    GitLab.get_request decode_response
snippets-Links w = refl

wiki_replies :
    LinkReplies
      (paging_web 200 [])
      gitlab_client
      gitlab_decoders.wiki_pages
      (GitLab.project_sub_url (paging_web 200 []) gitlab_client (text "g/p") (text "wikis") 1)
      (text "home" ∷ [])
      []
wiki_replies w = (
  record {
    status = 200;
    header = λ name. [];
    body =
        page_value
          (GitLab.project_sub_url (paging_web 200 []) gitlab_client (text "g/p") (text "wikis")
            1).query;
    broken = none;
  },
  unfold GitLab.get_request in refl,
  refl,
  refl,
  refl,
)

snippets_linked :
    LinkedPages
      (paging_web 200 [])
      gitlab_client
      gitlab_decoders.snippets
      (GitLab.project_sub_url (paging_web 200 []) gitlab_client (text "g/p") (text "snippets"))
      1
      ((49 ∷ 50 ∷ []) ∷ [])
snippets_linked w = (
  record {
    status = 200;
    header = λ name. [];
    body =
        page_value
          (GitLab.project_sub_url (paging_web 200 []) gitlab_client (text "g/p") (text "snippets")
            1).query;
    broken = none;
  },
  unfold GitLab.get_request in refl,
  refl,
  refl,
  refl,
)

project_detail_lists_example :
    (listed : List Repo) × IsWiki project (text "home" ∷ []) listed
    × (GitLab.project_detail
          (paging_web 200 [])
          gitlab_client
          gitlab_decoders
          1
          project
          sample_world
        ≡ (
          ok (
              record { path = text "g/p"; archived = true; empty = false } ∷ listed
              ++ snippet 49 ∷ snippet 50 ∷ []),
          sample_world,
        ))
unfolding GitLab.project_repo concat
project_detail_lists_example =
    project_detail_lists (paging_web 200 []) gitlab_client gitlab_decoders project
      (text "home" ∷ []) [] ((49 ∷ 50 ∷ []) ∷ []) 1 sample_world wiki_replies snippets_linked
      (omega arith)

abbrev forbidden : Response
forbidden = record { status = 403; header = λ name. []; body = []; broken = none }

abbrev forbidding_web : Web
forbidding_web = record (paging_web 403 []) { send = λ request w. (ok forbidden, w) }

abbrev told : World
told = record sample_world {
  log =
      (info, "gitlab project resource not accessible, treating as empty", text "g/p")
      ∷ (info, "gitlab project resource not accessible, treating as empty", text "g/p")
      ∷ [];
}

project_detail_forbidden_example :
    GitLab.project_detail forbidding_web gitlab_client gitlab_decoders 1 project sample_world
    ≡ (ok (record { path = text "g/p"; archived = true; empty = false } ∷ []), told)
unfolding GitLab.project_repo World.log_line
project_detail_forbidden_example =
    project_detail_forbidden forbidding_web gitlab_client gitlab_decoders forbidden (λ url v. refl)
      refl project 0 sample_world

linked_pages-concat_example :
    linked_pages
      (GitLab.snippets_page (paging_web 200 []) gitlab_client gitlab_decoders project)
      1
      1
      sample_world
    ≡ (ok (snippet 49 ∷ snippet 50 ∷ []), sample_world)
unfolding concat
linked_pages-concat_example =
    linked_pages-concat
      (GitLab.snippets_page (paging_web 200 []) gitlab_client gitlab_decoders project)
      ((snippet 49 ∷ snippet 50 ∷ []) ∷ []) 1 1 sample_world snippets-Links (omega arith)
