-- ===== src/Forge/Stays/Listing.antt =====
-- internal/github/github.go, internal/gitlab/gitlab.go, internal/forgejo/forgejo.go: `ListRepos`
-- leaves the disk as it was.
use backup_git_repos.Base.{
  Text, text, ℕ, List, [], ◌∷◌, ◌++◌, Option, Bool, true, false, refl, arith,
}
use backup_git_repos.FilePath.{FilePath}
use backup_git_repos.World.{World, pure, wrapping, ◌>>=◌, log_line}
use backup_git_repos.World.Near.{Near, Stays, bind-Stays, wrapping-Stays}
use backup_git_repos.Repo.{State, state_all, state_active, state_archived}
use backup_git_repos.Forge.Http.{Web, Response, Url}
use backup_git_repos.Forge.Stays.{SendKeeps, pages-Stays, linked_pages-Stays}
use backup_git_repos.Forge.GitHub
use backup_git_repos.Forge.Forgejo
use backup_git_repos.Forge.GitLab

module _ (web : Web) (sends : SendKeeps web) (q : FilePath) where
  module _ (decode : Text → Option (List GitHub.Item)) (c : GitHub.Client) where
    fetch_repos_page-Stays : (page : ℕ) → Stays q (GitHub.fetch_repos_page web decode c page)
    unfolding GitHub.fetch_repos_page
    fetch_repos_page-Stays page = record {
      at = λ w. ground (
        arith,
        (sends q (record { url = GitHub.repos_url web c page; headers = GitHub.headers c })).at w,
      );
    }

    checked_page-Stays : (page : ℕ) → Stays q (GitHub.checked_page web decode c page)
    unfolding GitHub.checked_page
    checked_page-Stays page = record {
      at = λ w. ground (arith, (fetch_repos_page-Stays page).at w);
    }

    pub github-Stays :
        (fuel : ℕ) (state : State) → Stays q (GitHub.list_repos web decode c fuel state)
    unfolding GitHub.list_repos GitHub.filter_repo
    github-Stays fuel state =
        pages-Stays q (GitHub.filter_repo state) (λ i w. (refl, refl))
          (GitHub.checked_page web decode c) GitHub.page_size fuel 1 checked_page-Stays

  module _ (decode : Text → Option (List Forgejo.Item)) (c : Forgejo.Client) where
    keep_repo-keeps : (i : Forgejo.Item) (w : World) → Near q (Forgejo.keep_repo c i w).1 w
    unfolding Forgejo.keep_repo log_line
    keep_repo-keeps i w = ground arith

    fetch_search_page-Stays :
        (state : State) (page : ℕ) → Stays q (Forgejo.fetch_search_page web decode c state page)
    unfolding Forgejo.fetch_search_page
    fetch_search_page-Stays state page = record {
      at = λ w. ground (
        arith,
        (sends q (record {
          url = Forgejo.search_url web c page state;
          headers = (text "Authorization", text "token " ++ c.token) ∷ [];
        })).at
            w,
      );
    }

    pub forgejo-Stays :
        (fuel : ℕ) (state : State) → Stays q (Forgejo.list_repos web decode c fuel state)
    unfolding Forgejo.list_repos
    forgejo-Stays fuel state =
        pages-Stays q (Forgejo.keep_repo c) keep_repo-keeps
          (Forgejo.fetch_search_page web decode c state) Forgejo.page_size fuel 1
          (fetch_search_page-Stays state)

  module _ (c : GitLab.Client) where
    accept_optional-Stays :
        {A : Type 0} (decode : Text → Option (List A)) (project : Text) (r : Response)
        → Stays q (GitLab.accept_optional web c decode project r)
    unfolding GitLab.accept_optional log_line
    accept_optional-Stays decode project r = record { at = λ w. ground arith }

    pub get_optional-Stays :
        {A : Type 0} (decode : Text → Option (List A)) (url : Url) (project : Text)
        → Stays q (GitLab.get_optional web c decode url project)
    unfolding GitLab.get_optional
    get_optional-Stays decode url project =
        bind-Stays (wrapping (text "get") (web.send (GitLab.get_request web c url)))
          (GitLab.accept_optional web c decode project)
          (wrapping-Stays (text "get") (web.send (GitLab.get_request web c url))
            (sends q (GitLab.get_request web c url)))
          (accept_optional-Stays decode project)

    module _ (d : GitLab.Decoders) where
      fetch_projects_page-Stays :
          (archived : Bool) (page : ℕ) → Stays q (GitLab.fetch_projects_page web c d archived page)
      unfolding GitLab.fetch_projects_page
      fetch_projects_page-Stays archived page = record {
        at = λ w. ground (
          arith,
          (sends q (GitLab.get_request web c (GitLab.projects_url web c page archived))).at w,
        );
      }

      wiki_repo-Stays : (p : GitLab.Project) → Stays q (GitLab.wiki_repo web c d p)
      unfolding GitLab.wiki_repo
      wiki_repo-Stays p = record {
        at = λ w. ground (
          arith,
          (get_optional-Stays d.wiki_pages
                (GitLab.project_sub_url web c p.path_with_namespace (text "wikis") 1)
                p.path_with_namespace).at
              w,
        );
      }

      snippets_page-Stays :
          (p : GitLab.Project) (page : ℕ) → Stays q (GitLab.snippets_page web c d p page)
      unfolding GitLab.snippets_page
      snippets_page-Stays p page = record {
        at = λ w. ground (
          arith,
          (get_optional-Stays d.snippets
                (GitLab.project_sub_url web c p.path_with_namespace (text "snippets") page)
                p.path_with_namespace).at
              w,
        );
      }

      project_detail-Stays :
          (fuel : ℕ) (p : GitLab.Project) → Stays q (GitLab.project_detail web c d fuel p)
      unfolding GitLab.project_detail GitLab.snippet_repos
      project_detail-Stays fuel p = record {
        at = λ w.
            let w₁ = (GitLab.wiki_repo web c d p w).1 in
            ground (
              arith,
              (wiki_repo-Stays p).at w,
              (linked_pages-Stays (GitLab.snippets_page web c d p) fuel 1
                    (snippets_page-Stays p)).at
                  w₁,
            );
      }

      details-Stays :
          (fuel : ℕ) (projects : List GitLab.Project)
          → Stays q (GitLab.details web c d fuel projects)
      unfolding GitLab.details
      details-Stays fuel [] = record { at = λ w. (refl, refl) }
      details-Stays fuel (p ∷ projects) = record {
        at = λ w. ground (
          arith,
          (project_detail-Stays fuel p).at w,
          (details-Stays fuel projects).at (GitLab.project_detail web c d fuel p w).1,
        );
      }

      projects_page-Stays :
          (fuel : ℕ) (archived : Bool) (page : ℕ)
          → Stays q (GitLab.projects_page web c d fuel archived page)
      unfolding GitLab.projects_page GitLab.project_repos
      projects_page-Stays fuel archived page =
          bind-Stays (GitLab.fetch_projects_page web c d archived page)
            (λ (projects, next).
              GitLab.project_repos web c d fuel projects >>= λ repos. pure (repos, next))
            (fetch_projects_page-Stays archived page)
            (λ (projects, next). record {
              at = λ w. ground (arith, (details-Stays fuel projects).at w);
            })

      list_by_archived-Stays :
          (fuel : ℕ) (archived : Bool) → Stays q (GitLab.list_by_archived web c d fuel archived)
      unfolding GitLab.list_by_archived
      list_by_archived-Stays fuel archived =
          linked_pages-Stays (GitLab.projects_page web c d fuel archived) fuel 1
            (projects_page-Stays fuel archived)

      pub gitlab-Stays : (fuel : ℕ) (state : State) → Stays q (GitLab.list_repos web c d fuel state)
      unfolding GitLab.list_repos
      gitlab-Stays fuel state_all = record {
        at = λ w. ground (
          arith,
          (list_by_archived-Stays fuel false).at w,
          (list_by_archived-Stays fuel true).at (GitLab.list_by_archived web c d fuel false w).1,
        );
      }
      gitlab-Stays fuel state_active = list_by_archived-Stays fuel false
      gitlab-Stays fuel state_archived = list_by_archived-Stays fuel true
