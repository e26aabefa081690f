-- ===== src/Forge/Stays/Forgejo.antt =====
-- internal/forgejo/issue.go, pull_request.go, release.go: an export keeps to its directory.
use backup_git_repos.Base.{Text, text, ℕ, List, Option, map, ◌++◌}
use backup_git_repos.FilePath.{FilePath}
use backup_git_repos.Fs.Update.{Apart}
use backup_git_repos.Error.{ok}
use backup_git_repos.World.Near.{Stays, bind-Stays, looking-Stays, wrapping-Stays}
use backup_git_repos.Repo.{Repo}
use backup_git_repos.Metadata.Write.{
  Encoders, write_issue, write_pull_request, write_release, write_release_asset,
}
use backup_git_repos.Metadata.Write.Numbered.{IsItoa}
use backup_git_repos.Metadata.Write.Stays.{
  write_issue-Stays, write_pull_request-Stays, write_release-Stays, write_release_asset-Stays,
}
use backup_git_repos.Forge.Http.{Web, Url, asset_body, check_status}
use backup_git_repos.Forge.Stays.{
  SendKeeps, pages_all-Stays, gather_pages-Stays, each_page-Stays, download_all-Stays,
  get_with-Stays, sent-Stays, fetch_write-Stays,
}
use backup_git_repos.Forge.Forgejo.{Client, page_size}
use backup_git_repos.Forge.Forgejo.Issues
use backup_git_repos.Forge.Forgejo.PullRequests
use backup_git_repos.Forge.Forgejo.Releases

module _ (web : Web) (sends : SendKeeps web) (enc : Encoders) (c : Client) (fuel : ℕ)
    (q : FilePath) where
  get_json-Stays :
      {A : Type 0} (decode : Text → Option A) (url : Url)
      → Stays q (Issues.get_json web c decode url)
  unfolding Issues.get_json
  get_json-Stays decode url = get_with-Stays web sends q (Issues.token_header c) decode url

  module _ (itoa : IsItoa enc.itoa) (d : Issues.Decoders) (repo : Repo) (dir : FilePath)
      (far : Apart dir q) where
    export_issue-Stays :
        (it : Issues.IssueItem) → Stays q (Issues.export_issue web enc d c fuel repo dir it)
    unfolding Issues.export_issue Issues.fetch_comments Issues.fetch_comments_page
    export_issue-Stays it =
        fetch_write-Stays (text "write issue")
          (Issues.fetch_comments web enc d c fuel repo.path it.number)
          (λ comments. write_issue enc dir (Issues.to_issue it comments))
          (pages_all-Stays (λ (i : Issues.CommentItem). i)
            (Issues.fetch_comments_page web enc d c fuel repo.path it.number) page_size fuel 1
            (λ n. wrapping-Stays (text "list forgejo comments") _ (get_json-Stays d.comments _)))
          (λ comments. write_issue-Stays enc itoa dir q far (Issues.to_issue it comments))

    pub export_issues-Stays : Stays q (Issues.export_issues web enc d c fuel repo dir)
    unfolding Issues.export_issues Issues.fetch_issues_page
    export_issues-Stays =
        each_page-Stays (Issues.fetch_issues_page web enc d c fuel repo.path)
          (Issues.export_issue web enc d c fuel repo dir) page_size fuel 1
          (λ n. wrapping-Stays (text "list forgejo issues") _ (get_json-Stays d.issues _))
          export_issue-Stays

  module _ (itoa : IsItoa enc.itoa) (d : PullRequests.Decoders) (repo : Repo) (dir : FilePath)
      (far : Apart dir q) where
    fetch_one-Stays :
        (number id : ℕ)
        → Stays q (PullRequests.fetch_one_review_comments web enc d c fuel repo.path number id)
    unfolding PullRequests.fetch_one_review_comments
    fetch_one-Stays number id =
        bind-Stays _ (λ comments w. (ok (map PullRequests.to_review_comment comments), w))
          (wrapping-Stays (text "list forgejo review comments") _
            (get_json-Stays d.review_comments _))
          (λ comments. looking-Stays (λ w. ok (map PullRequests.to_review_comment comments)))

    review_comments_of-Stays :
        (number : ℕ) (r : PullRequests.Review)
        → Stays q (PullRequests.review_comments_of web enc d c fuel repo.path number r)
    unfolding PullRequests.review_comments_of
    review_comments_of-Stays number r =
        bind-Stays (PullRequests.fetch_one_review_comments web enc d c fuel repo.path number r.id)
          (λ comments w. (ok (PullRequests.review_body r ++ comments), w))
          (fetch_one-Stays number r.id)
          (λ comments. looking-Stays (λ w. ok (PullRequests.review_body r ++ comments)))

    export_pull-Stays :
        (it : PullRequests.PullItem)
        → Stays q (PullRequests.export_pull web enc d c fuel repo dir it)
    unfolding PullRequests.export_pull PullRequests.fetch_review_comments
        PullRequests.fetch_reviews_page
    export_pull-Stays it =
        fetch_write-Stays (text "write pull request")
          (PullRequests.fetch_review_comments web enc d c fuel repo.path it.number)
          (λ comments. write_pull_request enc dir (PullRequests.to_pull_request it comments))
          (gather_pages-Stays (PullRequests.fetch_reviews_page web enc d c fuel repo.path it.number)
            (PullRequests.review_comments_of web enc d c fuel repo.path it.number) page_size fuel 1
            (λ n. wrapping-Stays (text "list forgejo reviews") _ (get_json-Stays d.reviews _))
            (review_comments_of-Stays it.number))
          (λ comments.
            write_pull_request-Stays enc itoa dir q far (PullRequests.to_pull_request it comments))

    pub export_pulls-Stays : Stays q (PullRequests.export_pulls web enc d c fuel repo dir)
    unfolding PullRequests.export_pulls PullRequests.fetch_pulls_page
    export_pulls-Stays =
        each_page-Stays (PullRequests.fetch_pulls_page web enc d c fuel repo.path)
          (PullRequests.export_pull web enc d c fuel repo dir) page_size fuel 1
          (λ n. wrapping-Stays (text "list forgejo pull requests") _ (get_json-Stays d.pulls _))
          export_pull-Stays

  module _ (decode : Text → Option (List Releases.ReleaseItem)) (repo : Repo) (dir : FilePath)
      (far : Apart dir q) where
    download_asset-Stays :
        (tag : Text) (a : Releases.AssetItem)
        → Stays q (Releases.download_asset web enc decode c fuel dir tag a)
    unfolding Releases.download_asset
    download_asset-Stays tag a = wrapping-Stays (text "download forgejo release asset") _ (
        bind-Stays (λ w. (Releases.resolve_asset_url web c a.browser_download_url, w)) _
          (looking-Stays (λ w. Releases.resolve_asset_url web c a.browser_download_url))
          (λ url.
            sent-Stays web sends q (Releases.asset_request c url) check_status
              (λ response. write_release_asset dir tag a.name (asset_body response))
              (λ response. write_release_asset-Stays dir q far tag a.name (asset_body response))))

    export_release-Stays :
        (it : Releases.ReleaseItem) → Stays q (Releases.export_release web enc decode c fuel dir it)
    unfolding Releases.export_release
    export_release-Stays it =
        fetch_write-Stays (text "write release") _
          (λ assets. write_release enc dir (Releases.to_release it assets))
          (download_all-Stays (λ (a : Releases.AssetItem). a.name)
            (Releases.download_asset web enc decode c fuel dir it.tag_name) it.assets
            (download_asset-Stays it.tag_name))
          (λ assets. write_release-Stays dir q far enc (Releases.to_release it assets))

    pub export_releases-Stays : Stays q (Releases.export_releases web enc decode c fuel repo dir)
    unfolding Releases.export_releases Releases.fetch_releases_page
    export_releases-Stays =
        each_page-Stays (Releases.fetch_releases_page web enc decode c fuel repo.path)
          (Releases.export_release web enc decode c fuel dir) page_size fuel 1
          (λ n. wrapping-Stays (text "list forgejo releases") _ (get_json-Stays decode _))
          export_release-Stays
