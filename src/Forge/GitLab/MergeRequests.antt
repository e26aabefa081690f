-- ===== src/Forge/GitLab/MergeRequests.antt =====
-- internal/gitlab/pull_request.go: the exporter of GitLab's merge requests with their discussions.
use backup_git_repos.Base.{
  Text, text, ℕ, List, [], ◌∷◌, ◌++◌, Option, none, some, Bool, ◌==◌, list_eq, nat_eq,
  if◌then◌else◌,
}
use backup_git_repos.FilePath.{FilePath}
use backup_git_repos.World.{Io, pure, wrapping, ◌>>=◌}
use backup_git_repos.Repo.{Repo}
use backup_git_repos.Metadata.{pull_requests}
use backup_git_repos.Metadata.Write.{PullRequest, ReviewComment, Encoders, write_pull_request}
use backup_git_repos.Run.Types.{MetadataExporter}
use backup_git_repos.Forge.Http.{Web, Url}
use backup_git_repos.Forge.Paging.{linked_pages}
use backup_git_repos.Forge.Export.{each_linked, grown}
use backup_git_repos.Forge.GitLab.{Client, page_size, get_optional, project_sub_url}
use backup_git_repos.Forge.GitLab.Issues.{User, common_state}

-- `glMergeRequest`
pub record MergeItem : Type 0 where
  pub iid : ℕ
  pub title : Text
  pub description : Text
  pub author : User
  pub state : Text
  pub source_branch : Text
  pub target_branch : Text
  pub created_at : Text
  pub updated_at : Text
  pub closed_at : Option Text
  pub merged_at : Option Text

-- `glPosition`
pub record Position : Type 0 where
  pub new_path : Text
  pub new_line : Option ℕ
  pub old_path : Text
  pub old_line : Option ℕ

-- `glDiscussionNote`
pub record DiscussionNote : Type 0 where
  pub note_type : Text
  pub author : User
  pub body : Text
  pub created_at : Text
  pub system : Bool
  pub position : Option Position

-- `glDiscussion`
pub record Discussion : Type 0 where
  pub notes : List DiscussionNote

unfoldable pub to_pull_request : MergeItem → List ReviewComment → PullRequest
to_pull_request it comments = record {
  number = it.iid;
  title = it.title;
  body = it.description;
  author = it.author.username;
  state = common_state it.state;
  source_branch = it.source_branch;
  target_branch = it.target_branch;
  created_at = it.created_at;
  updated_at = it.updated_at;
  closed_at = it.closed_at;
  merged_at = it.merged_at;
  comments = grown comments;
}

-- The file and the line of a note; neither where it is on no line of the diff.
unfoldable pub anchor_file : Option Position → Text
anchor_file none = text ""
anchor_file (some p) = if p.new_path == [] then p.old_path else p.new_path

unfoldable pub anchor_line : Option Position → ℕ
anchor_line none = 0
anchor_line (some p) = elim p.new_line [
  | some line ↦ line
  | none ↦ elim p.old_line [ some line ↦ line | none ↦ 0 ]
]

unfoldable pub to_review_comment : DiscussionNote → ReviewComment
to_review_comment n = record {
  author = n.author.username;
  body = n.body;
  created_at = n.created_at;
  file = anchor_file n.position;
  line = anchor_line n.position;
}

-- The notes of a discussion that a person wrote.
unfoldable pub note_comments : List DiscussionNote → List ReviewComment
note_comments [] = []
note_comments (n ∷ notes) =
    let rest = note_comments notes in if n.system then rest else to_review_comment n ∷ rest

unfoldable pub discussion_comments : List Discussion → List ReviewComment
discussion_comments [] = []
discussion_comments (d ∷ discussions) = note_comments d.notes ++ discussion_comments discussions

-- The JSON decoder at the types that it is used at.
pub record Decoders : Type 0 where
  pub merge_requests : Text → Option (List MergeItem)
  pub discussions : Text → Option (List Discussion)

unfoldable pub discussions_url : Web → Client → Text → ℕ → ℕ → Url
discussions_url web c project_path iid page = record {
  base = c.base_url;
  path =
      text "/api/v4/projects/"
      ++ (web.path_escape project_path
          ++ (text "/merge_requests/" ++ (web.itoa iid ++ text "/discussions")));
  query = (text "per_page", web.itoa page_size) ∷ (text "page", web.itoa page) ∷ [];
}

module _ (web : Web) (enc : Encoders) (decoders : Decoders) (c : Client) (fuel : ℕ) where
  unfoldable pub fetch_merge_requests_page : Text → ℕ → Io (List MergeItem × Text)
  fetch_merge_requests_page project_path page = wrapping (text "list gitlab merge requests") (
      get_optional web c decoders.merge_requests
        (project_sub_url web c project_path (text "merge_requests") page) project_path)

  unfoldable pub fetch_discussions_page : Text → ℕ → ℕ → Io (List ReviewComment × Text)
  fetch_discussions_page project_path iid page = do
    (discussions, next) ← wrapping (text "list gitlab discussions") (
        get_optional web c decoders.discussions (discussions_url web c project_path iid page)
          project_path)
    pure (discussion_comments discussions, next)

  unfoldable pub fetch_review_comments : Text → ℕ → Io (List ReviewComment)
  fetch_review_comments project_path iid =
      linked_pages (fetch_discussions_page project_path iid) fuel 1

  unfoldable pub export_merge_request : Repo → FilePath → MergeItem → Io (Unit {0})
  export_merge_request repo dir it = do
    comments ← fetch_review_comments repo.path it.iid
    wrapping (text "write pull request") (write_pull_request enc dir (to_pull_request it comments))

  unfoldable pub export_merge_requests : Repo → FilePath → Io (Unit {0})
  export_merge_requests repo dir =
      each_linked (fetch_merge_requests_page repo.path) (export_merge_request repo dir) fuel 1

  unfoldable pub pull_request_exporter : MetadataExporter
  pull_request_exporter = record { kind = pull_requests; export = export_merge_requests }
