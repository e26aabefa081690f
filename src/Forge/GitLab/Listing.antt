-- ===== src/Forge/GitLab/Listing.antt =====
-- internal/gitlab: what `projectDetail` and `projectRepos` make of a project.
use backup_git_repos.Base.{
  Text, text, ℕ, suc, ◌≤◌, list_eq, nat_eq, list_beq, List, [], ◌∷◌, ◌++◌, Option, length, ◌≡◌,
  refl, inl, inr, map, ap, ◌∙◌, false,
}
use backup_git_repos.Error.{Err, ok, err}
use backup_git_repos.Error.Steps.{Result-cases}
use backup_git_repos.World.{World, log_line, info}
use backup_git_repos.Repo.{Repo}
use backup_git_repos.Forge.Http.{Web, Url, Response}
use backup_git_repos.Forge.GitLab.Linked.{
  LinkReplies, LinkedPages, LinkedPages-Links, get_optional-LinkReplies, concat-map, length-map,
}
use backup_git_repos.Forge.Paging.{linked_pages, next_then}
use backup_git_repos.Forge.Paging.Linked.{concat, linked_pages-concat}
use backup_git_repos.Forge.GitLab.{
  Client, Project, Decoders, project_repo, get_request, accept_optional, get_optional, wiki_of,
  wiki_repo, snippets_page, snippet_repo, snippet_repos, project_detail, details, project_sub_url,
}

-- What is listed of a project's wiki, by the pages that it has.
pub data IsWiki (p : Project) : List Text → List Repo → Type 0 where
  no_wiki : IsWiki p [] []
  one_wiki :
      (slug : Text) (slugs : List Text)
      → IsWiki p (slug ∷ slugs) (
          record {
            path = p.path_with_namespace ++ text ".wiki";
            archived = p.archived;
            empty = false;
          }
          ∷ [])

module _ (web : Web) (c : Client) (decoders : Decoders) where
  -- The repository of a snippet.
  abbrev pub listed_snippet : Project → ℕ → Repo
  listed_snippet p id = record {
    path = p.path_with_namespace ++ (text "/snippets/" ++ web.itoa id);
    archived = p.archived;
    empty = false;
  }

  wiki_of-IsWiki :
      (p : Project) (slugs : List Text) → IsWiki p slugs (wiki_of web c decoders p slugs)
  unfolding wiki_of
  wiki_of-IsWiki p [] = no_wiki
  wiki_of-IsWiki p (slug ∷ slugs) = one_wiki slug slugs

  wiki_repo-read :
      (p : Project) (slugs : List Text) (next : Text) (w : World)
      → LinkReplies web c decoders.wiki_pages
          (project_sub_url web c p.path_with_namespace (text "wikis") 1)
          slugs
          next
      → wiki_repo web c decoders p w ≡ (ok (wiki_of web c decoders p slugs), w)
  unfolding wiki_repo
  wiki_repo-read p slugs next w replies =
      rw
        (get_optional-LinkReplies web c decoders.wiki_pages
          (project_sub_url web c p.path_with_namespace (text "wikis") 1) p.path_with_namespace slugs
          next w replies)
        refl

  snippets_page-read :
      (p : Project) (page : ℕ) (ids : List ℕ) (next : Text)
      → LinkReplies web c decoders.snippets
          (project_sub_url web c p.path_with_namespace (text "snippets") page)
          ids
          next
      → (w : World)
      → snippets_page web c decoders p page w ≡ (ok (map (listed_snippet p) ids, next), w)
  unfolding snippets_page snippet_repo
  snippets_page-read p page ids next replies w =
      rw
        (get_optional-LinkReplies web c decoders.snippets
          (project_sub_url web c p.path_with_namespace (text "snippets") page) p.path_with_namespace
          ids next w replies)
        refl

  map-append :
      (p : Project) (xs ys : List ℕ)
      → map (listed_snippet p) (xs ++ ys) ≡ map (listed_snippet p) xs ++ map (listed_snippet p) ys
  map-append p [] ys = refl
  map-append p (x ∷ xs) ys = ap (λ rs. listed_snippet p x ∷ rs) (map-append p xs ys)

  snippets_read :
      (p : Project) (ids : List (List ℕ)) (fuel : ℕ) (w : World)
      → LinkedPages web c decoders.snippets
          (project_sub_url web c p.path_with_namespace (text "snippets"))
          1
          ids
      → length ids ≤ fuel
      → snippet_repos web c decoders fuel p w ≡ (ok (map (listed_snippet p) (concat ids)), w)
  unfolding snippet_repos
  snippets_read p ids fuel w linked enough =
      let url = project_sub_url web c p.path_with_namespace (text "snippets") in
      let each_page = map (listed_snippet p) in
      linked_pages-concat (snippets_page web c decoders p) (map each_page ids) fuel 1 w
        (LinkedPages-Links web c decoders.snippets url (snippets_page web c decoders p) each_page
          (snippets_page-read p) 1 ids linked)
        (rw (length-map each_page ids) enough)
      ∙ ap (λ (rs : List Repo). (ok rs, w)) (concat-map each_page refl (map-append p) ids)

  -- Where GitLab has these pages of a project's wiki and of its snippets, the project is listed
  -- itself, then its wiki if it has a page, then all of its snippets, over any number of pages; fuel
  -- for as many pages is enough.
  pub project_detail_lists :
      (p : Project) (slugs : List Text) (next : Text) (ids : List (List ℕ)) (fuel : ℕ) (w : World)
      → LinkReplies web c decoders.wiki_pages
          (project_sub_url web c p.path_with_namespace (text "wikis") 1)
          slugs
          next
      → LinkedPages web c decoders.snippets
          (project_sub_url web c p.path_with_namespace (text "snippets"))
          1
          ids
      → length ids ≤ fuel
      → (wiki : List Repo) × IsWiki p slugs wiki
        × (project_detail web c decoders fuel p w
            ≡ (ok (project_repo p ∷ wiki ++ map (listed_snippet p) (concat ids)), w))
  unfolding project_detail
  project_detail_lists p slugs next ids fuel w wiki snippets enough = (
    wiki_of web c decoders p slugs,
    wiki_of-IsWiki p slugs,
    rw (wiki_repo-read p slugs next w wiki, snippets_read p ids fuel w snippets enough) refl,
  )

  -- A project that cannot be resolved fails its whole page: none of the page's repositories is listed.
  pub details_failed :
      (fuel : ℕ) (before after : List Project) (p : Project) (w : World) (e : Err)
      → ((v : World) → (project_detail web c decoders fuel p v).0 ≡ err e)
      → (failure : Err) × ((details web c decoders fuel (before ++ p ∷ after) w).0 ≡ err failure)
  unfolding details
  details_failed fuel [] after p w e h = (e, rw (h w) refl)
  details_failed fuel (q ∷ before) after p w e h =
      let w₁ = (project_detail web c decoders fuel q w).1 in
      elim (Result-cases (project_detail web c decoders fuel q w).0) [
        | inr (x, r) ↦ (x, rw r refl)
        | inl (repos, r) ↦
            (let (x, s) = details_failed fuel before after p w₁ e h in (x, rw (r, s) refl))
      ]

  -- The line of the log that tells of a resource that is not accessible.
  abbrev inaccessible : Text → World → World
  inaccessible project =
      log_line info "gitlab project resource not accessible, treating as empty" project

  module _ (r : Response)
      (sent : (url : Url) (v : World) → web.send (get_request web c url) v ≡ (ok r, v))
      (status : r.status ≡ 403) where
    optional_forbidden :
        {A : Type 0} (decode : Text → Option (List A)) (url : Url) (project : Text) (w : World)
        → get_optional web c decode url project w ≡ (ok ([], []), inaccessible project w)
    unfolding get_optional accept_optional
    optional_forbidden decode url project w = rw (sent url w) (simp status)

    wiki_forbidden :
        (p : Project) (w : World)
        → wiki_repo web c decoders p w ≡ (ok [], inaccessible p.path_with_namespace w)
    unfolding wiki_repo wiki_of
    wiki_forbidden p w =
        rw
          (optional_forbidden decoders.wiki_pages
            (project_sub_url web c p.path_with_namespace (text "wikis") 1) p.path_with_namespace w)
          refl

    snippets_forbidden :
        (p : Project) (page : ℕ) (w : World)
        → snippets_page web c decoders p page w
          ≡ (ok ([], []), inaccessible p.path_with_namespace w)
    unfolding snippets_page
    snippets_forbidden p page w =
        rw
          (optional_forbidden decoders.snippets
            (project_sub_url web c p.path_with_namespace (text "snippets") page)
            p.path_with_namespace w)
          refl

    -- Where GitLab answers 403 to everything that is asked about a project, the project is listed
    -- alone, as one without wiki and snippets is; two lines of the log tell of it, and no error does.
    pub project_detail_forbidden :
        (p : Project) (fuel : ℕ) (w : World)
        → project_detail web c decoders (suc fuel) p w ≡ (
          ok (project_repo p ∷ []),
          inaccessible p.path_with_namespace (inaccessible p.path_with_namespace w),
        )
    unfolding project_detail snippet_repos linked_pages next_then list_beq
    project_detail_forbidden p fuel w =
        let w₁ = inaccessible p.path_with_namespace w in
        rw (wiki_forbidden p w, snippets_forbidden p 1 w₁) refl
