-- ===== src/Forge/Forgejo/PullRequests.antt =====
-- internal/forgejo/pull_request.go: the exporter of Forgejo's pull requests with their reviews.
use backup_git_repos.Base.{
  Text, text, ℕ, List, [], ◌∷◌, ◌++◌, map, Option, Bool, ◌==◌, nat_eq, nat_beq, list_eq,
  if◌then◌else◌,
}
use backup_git_repos.FilePath.{FilePath}
use backup_git_repos.World.{Io, pure, wrapping, ◌>>=◌}
use backup_git_repos.Repo.{Repo}
use backup_git_repos.Metadata.{pull_requests}
use backup_git_repos.Metadata.Write.{PullRequest, ReviewComment, Encoders, write_pull_request}
use backup_git_repos.Run.Types.{MetadataExporter}
use backup_git_repos.Forge.Http.{Web}
use backup_git_repos.Forge.Export.{each_page, gather_pages, grown}
use backup_git_repos.Forge.Forgejo.{Client, page_size}
use backup_git_repos.Forge.Forgejo.Issues.{User, get_json, repo_url, page_query}

-- `forgeRef`
pub record Ref : Type 0 where
  pub branch : Text

-- `forgePullRequest`
pub record PullItem : Type 0 where
  pub number : ℕ
  pub title : Text
  pub body : Text
  pub user : User
  pub state : Text
  pub merged : Bool
  pub head : Ref
  pub base : Ref
  pub created_at : Text
  pub updated_at : Text
  pub closed_at : Option Text
  pub merged_at : Option Text

-- `forgeReview`
pub record Review : Type 0 where
  pub id : ℕ
  pub user : User
  pub body : Text
  pub submitted_at : Text

-- `forgeReviewComment`
pub record ReviewItem : Type 0 where
  pub user : User
  pub body : Text
  pub created_at : Text
  pub path : Text
  pub position : ℕ
  pub original_position : ℕ

unfoldable pub to_pull_request : PullItem → List ReviewComment → PullRequest
to_pull_request it comments = record {
  number = it.number;
  title = it.title;
  body = it.body;
  author = it.user.login;
  state = if it.merged then text "merged" else it.state;
  source_branch = it.head.branch;
  target_branch = it.base.branch;
  created_at = it.created_at;
  updated_at = it.updated_at;
  closed_at = it.closed_at;
  merged_at = it.merged_at;
  comments = grown comments;
}

-- The new side of the diff, and the old side where the comment is on none of the new.
unfoldable pub to_review_comment : ReviewItem → ReviewComment
to_review_comment c = record {
  author = c.user.login;
  body = c.body;
  created_at = c.created_at;
  file = c.path;
  line = if nat_beq c.position 0 then c.original_position else c.position;
}

-- What a reviewer wrote above the comments, unless it is empty.
unfoldable pub review_body : Review → List ReviewComment
review_body r =
    if r.body == []
    then []
    else record {
      author = r.user.login;
      body = r.body;
      created_at = r.submitted_at;
      file = text "";
      line = 0;
    }
      ∷ []

-- The JSON decoder at the types that it is used at.
pub record Decoders : Type 0 where
  pub pulls : Text → Option (List PullItem)
  pub reviews : Text → Option (List Review)
  pub review_comments : Text → Option (List ReviewItem)

module _ (web : Web) (enc : Encoders) (decoders : Decoders) (c : Client) (fuel : ℕ) where
  unfoldable pub fetch_pulls_page : Text → ℕ → Io (List PullItem)
  fetch_pulls_page repo_path page = wrapping (text "list forgejo pull requests") (
      get_json web c decoders.pulls
        (repo_url c repo_path (text "/pulls") ((text "state", text "all") ∷ page_query web page)))

  unfoldable pub fetch_reviews_page : Text → ℕ → ℕ → Io (List Review)
  fetch_reviews_page repo_path number page = wrapping (text "list forgejo reviews") (
      get_json web c decoders.reviews (
        repo_url c repo_path (text "/pulls/" ++ (web.itoa number ++ text "/reviews"))
          (page_query web page)))

  -- One request: the comments of a review come in no pages.
  unfoldable pub fetch_one_review_comments : Text → ℕ → ℕ → Io (List ReviewComment)
  fetch_one_review_comments repo_path number id = do
    comments ← wrapping (text "list forgejo review comments") (
        get_json web c decoders.review_comments (
          repo_url c repo_path
            (text "/pulls/"
              ++ (web.itoa number ++ (text "/reviews/" ++ (web.itoa id ++ text "/comments"))))
            []))
    pure (map to_review_comment comments)

  unfoldable pub review_comments_of : Text → ℕ → Review → Io (List ReviewComment)
  review_comments_of repo_path number r = do
    comments ← fetch_one_review_comments repo_path number r.id
    pure (review_body r ++ comments)

  unfoldable pub fetch_review_comments : Text → ℕ → Io (List ReviewComment)
  fetch_review_comments repo_path number =
      gather_pages (fetch_reviews_page repo_path number) (review_comments_of repo_path number)
        page_size fuel 1

  unfoldable pub export_pull : Repo → FilePath → PullItem → Io (Unit {0})
  export_pull repo dir it = do
    comments ← fetch_review_comments repo.path it.number
    wrapping (text "write pull request") (write_pull_request enc dir (to_pull_request it comments))

  unfoldable pub export_pulls : Repo → FilePath → Io (Unit {0})
  export_pulls repo dir =
      each_page (fetch_pulls_page repo.path) (export_pull repo dir) page_size fuel 1

  unfoldable pub pull_request_exporter : MetadataExporter
  pull_request_exporter = record { kind = pull_requests; export = export_pulls }
