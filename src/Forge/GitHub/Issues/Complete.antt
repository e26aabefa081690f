-- ===== src/Forge/GitHub/Issues/Complete.antt =====
-- internal/github/issue.go: what an export of issues leaves on disk.
use backup_git_repos.Base.{
  Text, text, ℕ, ◌+◌, ◌<◌, ◌≤◌, List, [], ◌∷◌, none, some, take, length, ◌≡◌, ◌≢◌, refl, ◌∙◌, ap,
  arith,
}
use backup_git_repos.FilePath.{FilePath}
use backup_git_repos.Fs.{file, get}
use backup_git_repos.Error.{ok}
use backup_git_repos.World.{World, wrapping}
use backup_git_repos.Repo.{Repo}
use backup_git_repos.Metadata.Write.{Encoders, numbered, write_issue}
use backup_git_repos.Forge.Http.{Web}
use backup_git_repos.Forge.Http.Replies.{Replies, get_with-Replies}
use backup_git_repos.Forge.Paging.{keep_all, collect, consider}
use backup_git_repos.Forge.Paging.Complete.{rest_after, pages-collect, succeeded}
use backup_git_repos.Forge.GitHub.{Client, page_size, headers}
use backup_git_repos.Forge.GitHub.Issues.{
  IssueItem, CommentItem, Decoders, to_issue, get_json, issues_url, comments_url,
  fetch_comments_page, fetch_comments, write_with_comments,
}

abbrev pub Differ : IssueItem → IssueItem → Type 0
Differ a b = b.number ≢ a.number

module _ (web : Web) (enc : Encoders) (decoders : Decoders) (c : Client) (repo : Repo) where
  -- GitHub, with these issues and pull requests and these comments on each: page by page, 100 at a
  -- time.
  pub record Answers (items : List IssueItem) (comments : ℕ → List CommentItem) : Type 0 where
    pub issues :
        (n : ℕ)
        → Replies web decoders.issues
            (record { url = issues_url web c repo.path (n + 1); headers = headers c })
            (take page_size (rest_after page_size n items))
    pub comments_of :
        (number n : ℕ)
        → Replies web decoders.comments
            (record { url = comments_url web c repo.path number (n + 1); headers = headers c })
            (take page_size (rest_after page_size n (comments number)))

  -- What an item stands for on disk: the file of its number, unless it is a pull request.
  abbrev pub IsWritten : (ℕ → List CommentItem) → FilePath → IssueItem → World → Type 0
  IsWritten comments dir it w =
      it.pull_request ≡ none
      → (bytes : Text) × (enc.issue (to_issue it (comments it.number)) ≡ some bytes)
        × (get (numbered enc dir it.number) w.fs ≡ some (file bytes))

  module _ (fuel : ℕ) (items : List IssueItem) (comments : ℕ → List CommentItem)
      (answers : Answers items comments) where
    collect-keep_all :
        (xs : List CommentItem) (w : World)
        → collect (keep_all (λ (i : CommentItem). i)) xs w ≡ (xs, w)
    unfolding collect consider
    collect-keep_all [] w = refl
    collect-keep_all (x ∷ xs) w = rw (collect-keep_all xs w) refl

    comments_page :
        (number n : ℕ) (w : World)
        → fetch_comments_page web enc decoders c fuel repo.path number (n + 1) w
          ≡ (ok (take page_size (rest_after page_size n (comments number))), w)
    unfolding fetch_comments_page get_json
    comments_page number n w =
        rw
          (get_with-Replies web decoders.comments (headers c)
            (comments_url web c repo.path number (n + 1))
            (take page_size (rest_after page_size n (comments number))) w
            (answers.comments_of number n))
          refl

    room : 1 ≤ page_size
    unfolding page_size
    room = omega arith

    comments_read :
        (number : ℕ) (w : World)
        → length (comments number) < fuel
        → fetch_comments web enc decoders c fuel repo.path number w ≡ (ok (comments number), w)
    unfolding fetch_comments
    comments_read number w enough =
        pages-collect (keep_all (λ (i : CommentItem). i))
          (fetch_comments_page web enc decoders c fuel repo.path number) page_size (comments number)
          fuel w room (comments_page number) enough
        ∙ ap succeeded (collect-keep_all (comments number) w)

    module _ (dir : FilePath) (enough : (number : ℕ) → length (comments number) < fuel) where
      written :
          (it : IssueItem) (w : World)
          → write_with_comments web enc decoders c fuel repo dir it w
            ≡ wrapping
                (text "write issue")
                (write_issue enc dir (to_issue it (comments it.number)))
                w
      unfolding write_with_comments
      written it w = rw (comments_read it.number w (enough it.number)) refl
