-- ===== src/Forge/GitHub/PullRequests.antt =====
-- internal/github/pull_request.go: the exporter of GitHub's pull requests.
use backup_git_repos.Base.{Text, text, ℕ, List, ◌∷◌, ◌++◌, Option, none, some}
use backup_git_repos.FilePath.{FilePath}
use backup_git_repos.World.{Io, wrapping, ◌>>=◌}
use backup_git_repos.Repo.{Repo}
use backup_git_repos.Metadata.{pull_requests}
use backup_git_repos.Metadata.Write.{PullRequest, ReviewComment, Encoders, write_pull_request}
use backup_git_repos.Run.Types.{MetadataExporter}
use backup_git_repos.Forge.Http.{Web}
use backup_git_repos.Forge.Paging.{pages, keep_all}
use backup_git_repos.Forge.Export.{each_page, grown}
use backup_git_repos.Forge.GitHub.{Client, page_size}
use backup_git_repos.Forge.GitHub.Issues.{User, get_json, repo_url, page_query}

-- `ghRef`
pub record Ref : Type 0 where
  pub branch : Text

-- `ghPullRequest`
pub record PullItem : Type 0 where
  pub number : ℕ
  pub title : Text
  pub body : Text
  pub user : User
  pub state : Text
  pub head : Ref
  pub base : Ref
  pub created_at : Text
  pub updated_at : Text
  pub closed_at : Option Text
  pub merged_at : Option Text

-- `ghReviewComment`
pub record ReviewItem : Type 0 where
  pub user : User
  pub body : Text
  pub created_at : Text
  pub path : Text
  pub line : Option ℕ
  pub original_line : Option ℕ

-- A merged pull request is neither open nor closed.
unfoldable pub pull_state : PullItem → Text
pull_state it = elim it.merged_at [ none ↦ it.state | some at ↦ text "merged" ]

unfoldable pub to_pull_request : PullItem → List ReviewComment → PullRequest
to_pull_request it comments = record {
  number = it.number;
  title = it.title;
  body = it.body;
  author = it.user.login;
  state = pull_state it;
  source_branch = it.head.branch;
  target_branch = it.base.branch;
  created_at = it.created_at;
  updated_at = it.updated_at;
  closed_at = it.closed_at;
  merged_at = it.merged_at;
  comments = grown comments;
}

abbrev pub line_or : Option ℕ → ℕ → ℕ
line_or none other = other
line_or (some line) other = line

unfoldable pub to_review_comment : ReviewItem → ReviewComment
to_review_comment c = record {
  author = c.user.login;
  body = c.body;
  created_at = c.created_at;
  file = c.path;
  line = line_or c.line (line_or c.original_line 0);
}

-- The JSON decoder at the types that it is used at.
pub record Decoders : Type 0 where
  pub pulls : Text → Option (List PullItem)
  pub review_comments : Text → Option (List ReviewItem)

module _ (web : Web) (enc : Encoders) (decoders : Decoders) (c : Client) (fuel : ℕ) where
  unfoldable pub fetch_pulls_page : Text → ℕ → Io (List PullItem)
  fetch_pulls_page repo_path page = wrapping (text "list github pull requests") (
      get_json web c decoders.pulls
        (repo_url c repo_path (text "/pulls") ((text "state", text "all") ∷ page_query web page)))

  unfoldable pub fetch_review_comments_page : Text → ℕ → ℕ → Io (List ReviewItem)
  fetch_review_comments_page repo_path number page = wrapping (text "list github review comments") (
      get_json web c decoders.review_comments (
        repo_url c repo_path (text "/pulls/" ++ (web.itoa number ++ text "/comments"))
          (page_query web page)))

  unfoldable pub fetch_review_comments : Text → ℕ → Io (List ReviewComment)
  fetch_review_comments repo_path number =
      pages (fetch_review_comments_page repo_path number) (keep_all to_review_comment) page_size
        fuel 1

  unfoldable pub export_pull : Repo → FilePath → PullItem → Io (Unit {0})
  export_pull repo dir it = do
    comments ← fetch_review_comments repo.path it.number
    wrapping (text "write pull request") (write_pull_request enc dir (to_pull_request it comments))

  unfoldable pub export_pulls : Repo → FilePath → Io (Unit {0})
  export_pulls repo dir =
      each_page (fetch_pulls_page repo.path) (export_pull repo dir) page_size fuel 1

  unfoldable pub pull_request_exporter : MetadataExporter
  pull_request_exporter = record { kind = pull_requests; export = export_pulls }
