-- ===== src/Forge/GitLab/Releases/Uploads.antt =====
-- internal/gitlab/release.go: which of a release's links are fetched over the API.
use backup_git_repos.Base.{Text, text, List, [], ◌∷◌, ◌++◌, true, list_eq, nat_eq, ◌≡◌, ◌≢◌, lacks}
use backup_git_repos.Error.{Result, ok}
use backup_git_repos.Forge.Http.{Web}
use backup_git_repos.Forge.GitLab.{Client}
use backup_git_repos.Forge.GitLab.Releases.{AssetLink}

-- What `[^/]+` matches.
pub record IsSegment (s : Text) : Type 0 where
  pub nonempty : s ≢ []
  pub within : lacks b'/' s ≡ true

-- What `/uploads/[^/]+/[^/]+` matches.
pub data IsUpload : Text → Type 0 where
  upload :
      (secret filename : Text)
      → IsSegment secret
      → IsSegment filename
      → IsUpload (text "/uploads/" ++ (secret ++ b'/' ∷ filename))

-- No end of a text is a match.
abbrev pub NoUpload : Text → Type 0
NoUpload path = (before rest : Text) → path ≡ before ++ rest → ¬ IsUpload rest

-- What the path of a link's URL makes of the link.
pub data Routed (web : Web) (c : Client) (project : Text) (l : AssetLink) (path : Text)
    : Result Text → Type 0 where
  by_api :
      (before rest : Text)
      → path ≡ before ++ rest
      → IsUpload rest
      → Routed web c project l path (
          ok (
            web.join_url c.base_url
              (text "/api/v4/projects/" ++ (web.path_escape project ++ rest))))
  as_it_stands : NoUpload path → l.direct_asset_url ≡ [] → Routed web c project l path (ok l.url)
  rehosted :
      NoUpload path
      → l.direct_asset_url ≢ []
      → Routed web c project l path (ok (web.rehost c.base_url l.direct_asset_url))

-- The parts of a match.
parts_of : Text → Text → List Text
parts_of secret filename = [] ∷ text "uploads" ∷ secret ∷ filename ∷ []
