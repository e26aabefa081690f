-- ===== src/Forge/GitLab/Issues.antt =====
-- internal/gitlab/issue.go: the exporter of GitLab's issues.
pub mod Complete
use backup_git_repos.Base.{
  Text, text, ℕ, List, [], ◌∷◌, ◌++◌, map, Option, some, Bool, ◌==◌, list_eq, nat_eq, if◌then◌else◌,
}
use backup_git_repos.FilePath.{FilePath}
use backup_git_repos.World.{Io, pure, wrapping, ◌>>=◌}
use backup_git_repos.Repo.{Repo}
use backup_git_repos.Metadata.{issues}
use backup_git_repos.Metadata.Write.{Issue, Comment, Encoders, write_issue}
use backup_git_repos.Run.Types.{MetadataExporter}
use backup_git_repos.Forge.Http.{Web, Url}
use backup_git_repos.Forge.Paging.{linked_pages}
use backup_git_repos.Forge.Export.{each_linked}
use backup_git_repos.Forge.GitLab.{Client, page_size, get_optional, project_sub_url}

-- `glUser`
pub record User : Type 0 where
  pub username : Text

-- `glIssue`
pub record IssueItem : Type 0 where
  pub iid : ℕ
  pub title : Text
  pub description : Text
  pub author : User
  pub state : Text
  pub labels : List Text
  pub created_at : Text
  pub updated_at : Text
  pub closed_at : Option Text

-- `glNote`
pub record Note : Type 0 where
  pub author : User
  pub body : Text
  pub created_at : Text
  pub system : Bool

-- The word of the other forges for `opened`.
unfoldable pub common_state : Text → Text
common_state state = if state == text "opened" then text "open" else state

unfoldable pub to_comment : Note → Comment
to_comment n = record { author = n.author.username; body = n.body; created_at = n.created_at }

unfoldable pub to_issue : IssueItem → List Note → Issue
to_issue it notes = record {
  number = it.iid;
  title = it.title;
  body = it.description;
  author = it.author.username;
  state = common_state it.state;
  labels = it.labels;
  created_at = it.created_at;
  updated_at = it.updated_at;
  closed_at = it.closed_at;
  comments = some (map to_comment notes);
}

-- The notes that a person wrote.
unfoldable pub written_notes : List Note → List Note
written_notes [] = []
written_notes (n ∷ notes) = let rest = written_notes notes in if n.system then rest else n ∷ rest

-- The JSON decoder at the types that it is used at.
pub record Decoders : Type 0 where
  pub issues : Text → Option (List IssueItem)
  pub notes : Text → Option (List Note)

unfoldable pub notes_url : Web → Client → Text → ℕ → ℕ → Url
notes_url web c project_path iid page = record {
  base = c.base_url;
  path =
      text "/api/v4/projects/"
      ++ (web.path_escape project_path ++ (text "/issues/" ++ (web.itoa iid ++ text "/notes")));
  query = (text "per_page", web.itoa page_size) ∷ (text "page", web.itoa page) ∷ [];
}

module _ (web : Web) (enc : Encoders) (decoders : Decoders) (c : Client) (fuel : ℕ) where
  unfoldable pub fetch_issues_page : Text → ℕ → Io (List IssueItem × Text)
  fetch_issues_page project_path page = wrapping (text "list gitlab issues") (
      get_optional web c decoders.issues (project_sub_url web c project_path (text "issues") page)
        project_path)

  unfoldable pub fetch_notes_page : Text → ℕ → ℕ → Io (List Note × Text)
  fetch_notes_page project_path iid page = do
    (notes, next) ←
        wrapping (text "list gitlab notes")
          (get_optional web c decoders.notes (notes_url web c project_path iid page) project_path)
    pure (written_notes notes, next)

  unfoldable pub fetch_notes : Text → ℕ → Io (List Note)
  fetch_notes project_path iid = linked_pages (fetch_notes_page project_path iid) fuel 1

  -- One round of the loop over a page.
  unfoldable pub export_issue : Repo → FilePath → IssueItem → Io (Unit {0})
  export_issue repo dir it = do
    notes ← fetch_notes repo.path it.iid
    wrapping (text "write issue") (write_issue enc dir (to_issue it notes))

  unfoldable pub export_issues : Repo → FilePath → Io (Unit {0})
  export_issues repo dir = each_linked (fetch_issues_page repo.path) (export_issue repo dir) fuel 1

  unfoldable pub issue_exporter : MetadataExporter
  issue_exporter = record { kind = issues; export = export_issues }
