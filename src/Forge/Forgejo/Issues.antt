-- ===== src/Forge/Forgejo/Issues.antt =====
-- internal/forgejo/issue.go: the exporter of Forgejo's issues, and `getJSON` of forgejo.go.
use backup_git_repos.Base.{Text, text, ℕ, List, [], ◌∷◌, ◌++◌, map, Option, some}
use backup_git_repos.FilePath.{FilePath}
use backup_git_repos.World.{Io, wrapping, ◌>>=◌}
use backup_git_repos.Repo.{Repo}
use backup_git_repos.Metadata.{issues}
use backup_git_repos.Metadata.Write.{Issue, Comment, Encoders, write_issue}
use backup_git_repos.Run.Types.{MetadataExporter}
use backup_git_repos.Forge.Http.{Web, Url, get_with}
use backup_git_repos.Forge.Paging.{pages, keep_all}
use backup_git_repos.Forge.Export.{each_page}
use backup_git_repos.Forge.Forgejo.{Client, page_size}

-- `forgeUser` and `forgeLabel`
pub record User : Type 0 where
  pub login : Text

pub record Label : Type 0 where
  pub name : Text

-- `forgeIssue`
pub record IssueItem : Type 0 where
  pub number : ℕ
  pub title : Text
  pub body : Text
  pub user : User
  pub state : Text
  pub labels : List Label
  pub created_at : Text
  pub updated_at : Text
  pub closed_at : Option Text

-- `forgeComment`
pub record CommentItem : Type 0 where
  pub user : User
  pub body : Text
  pub created_at : Text

unfoldable pub to_comment : CommentItem → Comment
to_comment c = record { author = c.user.login; body = c.body; created_at = c.created_at }

unfoldable pub to_issue : IssueItem → List CommentItem → Issue
to_issue it comments = record {
  number = it.number;
  title = it.title;
  body = it.body;
  author = it.user.login;
  state = it.state;
  labels = map (λ (l : Label). l.name) it.labels;
  created_at = it.created_at;
  updated_at = it.updated_at;
  closed_at = it.closed_at;
  comments = some (map to_comment comments);
}

unfoldable pub token_header : Client → List (Text × Text)
token_header c = (text "Authorization", text "token " ++ c.token) ∷ []

-- `getJSON`
unfoldable pub get_json : {A : Type 0} → Web → Client → (Text → Option A) → Url → Io A
get_json web c = get_with web (token_header c)

-- The JSON decoder at the types that it is used at.
pub record Decoders : Type 0 where
  pub issues : Text → Option (List IssueItem)
  pub comments : Text → Option (List CommentItem)

-- What stands below a repository's URL.
unfoldable pub repo_url : Client → Text → Text → List (Text × Text) → Url
repo_url c repo_path sub query = record {
  base = c.base_url;
  path = text "/api/v1/repos/" ++ (repo_path ++ sub);
  query = query;
}

abbrev pub page_query : Web → ℕ → List (Text × Text)
page_query web page = (text "limit", web.itoa page_size) ∷ (text "page", web.itoa page) ∷ []

module _ (web : Web) (enc : Encoders) (decoders : Decoders) (c : Client) (fuel : ℕ) where
  unfoldable pub fetch_issues_page : Text → ℕ → Io (List IssueItem)
  fetch_issues_page repo_path page = wrapping (text "list forgejo issues") (
      get_json web c decoders.issues (
        repo_url c repo_path (text "/issues")
          ((text "type", text "issues") ∷ (text "state", text "all") ∷ page_query web page)))

  unfoldable pub fetch_comments_page : Text → ℕ → ℕ → Io (List CommentItem)
  fetch_comments_page repo_path number page = wrapping (text "list forgejo comments") (
      get_json web c decoders.comments (
        repo_url c repo_path (text "/issues/" ++ (web.itoa number ++ text "/comments"))
          (page_query web page)))

  unfoldable pub fetch_comments : Text → ℕ → Io (List CommentItem)
  fetch_comments repo_path number =
      pages (fetch_comments_page repo_path number) (keep_all (λ (i : CommentItem). i)) page_size
        fuel 1

  -- One round of the loop over a page.
  unfoldable pub export_issue : Repo → FilePath → IssueItem → Io (Unit {0})
  export_issue repo dir it = do
    comments ← fetch_comments repo.path it.number
    wrapping (text "write issue") (write_issue enc dir (to_issue it comments))

  unfoldable pub export_issues : Repo → FilePath → Io (Unit {0})
  export_issues repo dir =
      each_page (fetch_issues_page repo.path) (export_issue repo dir) page_size fuel 1

  unfoldable pub issue_exporter : MetadataExporter
  issue_exporter = record { kind = issues; export = export_issues }
