-- ===== src/Forge/Stays/GitLab.antt =====
-- internal/gitlab/issue.go, pull_request.go, release.go: an export keeps to its directory.
use backup_git_repos.Base.{Text, text, ℕ, List, Option}
use backup_git_repos.FilePath.{FilePath}
use backup_git_repos.Fs.Update.{Apart}
use backup_git_repos.Error.{ok}
use backup_git_repos.World.{◌>>◌}
use backup_git_repos.World.Near.{Stays, bind-Stays, looking-Stays, wrapping-Stays}
use backup_git_repos.Repo.{Repo}
use backup_git_repos.Metadata.Write.{
  Encoders, write_issue, write_pull_request, write_release, write_release_asset,
}
use backup_git_repos.Metadata.Write.Numbered.{IsItoa}
use backup_git_repos.Metadata.Write.Stays.{
  write_issue-Stays, write_pull_request-Stays, write_release-Stays, write_release_asset-Stays,
}
use backup_git_repos.Forge.Http.{Web, asset_body, check_status, whole_url}
use backup_git_repos.Forge.Stays.{
  SendKeeps, linked_pages-Stays, each_linked-Stays, download_all-Stays, sent-Stays,
  fetch_write-Stays,
}
use backup_git_repos.Forge.Stays.Listing.{get_optional-Stays}
use backup_git_repos.Forge.GitLab.{Client, get_request, project_sub_url}
use backup_git_repos.Forge.GitLab.Issues
use backup_git_repos.Forge.GitLab.MergeRequests
use backup_git_repos.Forge.GitLab.Releases

module _ (web : Web) (sends : SendKeeps web) (enc : Encoders) (c : Client) (fuel : ℕ)
    (q : FilePath) where
  module _ (itoa : IsItoa enc.itoa) (d : Issues.Decoders) (repo : Repo) (dir : FilePath)
      (far : Apart dir q) where
    fetch_notes_page-Stays :
        (iid page : ℕ) → Stays q (Issues.fetch_notes_page web enc d c fuel repo.path iid page)
    unfolding Issues.fetch_notes_page
    fetch_notes_page-Stays iid page =
        bind-Stays _ (λ (items, next) w. (ok (Issues.written_notes items, next), w))
          (wrapping-Stays (text "list gitlab notes") _ (
            get_optional-Stays web sends q c d.notes (Issues.notes_url web c repo.path iid page)
              repo.path))
          (λ (items, next). looking-Stays (λ w. ok (Issues.written_notes items, next)))

    export_issue-Stays :
        (it : Issues.IssueItem) → Stays q (Issues.export_issue web enc d c fuel repo dir it)
    unfolding Issues.export_issue Issues.fetch_notes
    export_issue-Stays it =
        fetch_write-Stays (text "write issue")
          (Issues.fetch_notes web enc d c fuel repo.path it.iid)
          (λ items. write_issue enc dir (Issues.to_issue it items))
          (linked_pages-Stays (Issues.fetch_notes_page web enc d c fuel repo.path it.iid) fuel 1
            (fetch_notes_page-Stays it.iid))
          (λ items. write_issue-Stays enc itoa dir q far (Issues.to_issue it items))

    pub export_issues-Stays : Stays q (Issues.export_issues web enc d c fuel repo dir)
    unfolding Issues.export_issues Issues.fetch_issues_page
    export_issues-Stays =
        each_linked-Stays (Issues.fetch_issues_page web enc d c fuel repo.path)
          (Issues.export_issue web enc d c fuel repo dir) fuel 1
          (λ n. wrapping-Stays (text "list gitlab issues") _ (
            get_optional-Stays web sends q c d.issues
              (project_sub_url web c repo.path (text "issues") n) repo.path))
          export_issue-Stays

  module _ (itoa : IsItoa enc.itoa) (d : MergeRequests.Decoders) (repo : Repo) (dir : FilePath)
      (far : Apart dir q) where
    fetch_discussions_page-Stays :
        (iid page : ℕ)
        → Stays q (MergeRequests.fetch_discussions_page web enc d c fuel repo.path iid page)
    unfolding MergeRequests.fetch_discussions_page
    fetch_discussions_page-Stays iid page =
        bind-Stays _ (λ (items, next) w. (ok (MergeRequests.discussion_comments items, next), w))
          (wrapping-Stays (text "list gitlab discussions") _ (
            get_optional-Stays web sends q c d.discussions
              (MergeRequests.discussions_url web c repo.path iid page) repo.path))
          (λ (items, next). looking-Stays (λ w. ok (MergeRequests.discussion_comments items, next)))

    export_merge_request-Stays :
        (it : MergeRequests.MergeItem)
        → Stays q (MergeRequests.export_merge_request web enc d c fuel repo dir it)
    unfolding MergeRequests.export_merge_request MergeRequests.fetch_review_comments
    export_merge_request-Stays it =
        fetch_write-Stays (text "write pull request")
          (MergeRequests.fetch_review_comments web enc d c fuel repo.path it.iid)
          (λ items. write_pull_request enc dir (MergeRequests.to_pull_request it items))
          (linked_pages-Stays
            (MergeRequests.fetch_discussions_page web enc d c fuel repo.path it.iid) fuel 1
            (fetch_discussions_page-Stays it.iid))
          (λ items.
            write_pull_request-Stays enc itoa dir q far (MergeRequests.to_pull_request it items))

    pub export_merge_requests-Stays :
        Stays q (MergeRequests.export_merge_requests web enc d c fuel repo dir)
    unfolding MergeRequests.export_merge_requests MergeRequests.fetch_merge_requests_page
    export_merge_requests-Stays =
        each_linked-Stays (MergeRequests.fetch_merge_requests_page web enc d c fuel repo.path)
          (MergeRequests.export_merge_request web enc d c fuel repo dir) fuel 1
          (λ n. wrapping-Stays (text "list gitlab merge requests") _ (
            get_optional-Stays web sends q c d.merge_requests
              (project_sub_url web c repo.path (text "merge_requests") n) repo.path))
          export_merge_request-Stays

  module _ (decode : Text → Option (List Releases.ReleaseItem)) (repo : Repo) (dir : FilePath)
      (far : Apart dir q) where
    download_asset-Stays :
        (tag : Text) (l : Releases.AssetLink)
        → Stays q (Releases.download_asset web enc decode c fuel repo.path dir tag l)
    unfolding Releases.download_asset
    download_asset-Stays tag l = wrapping-Stays (text "download gitlab release asset") _ (
        bind-Stays (λ w. (Releases.resolve_asset_url web c repo.path l, w)) _
          (looking-Stays (λ w. Releases.resolve_asset_url web c repo.path l))
          (λ url.
            sent-Stays web sends q (get_request web c (whole_url url)) check_status
              (λ response.
                (λ w. (Releases.check_signed_in response, w))
                >> write_release_asset dir tag l.name (asset_body response))
              (λ response.
                bind-Stays (λ w. (Releases.check_signed_in response, w))
                  (λ _. write_release_asset dir tag l.name (asset_body response))
                  (looking-Stays (λ w. Releases.check_signed_in response))
                  (λ _. write_release_asset-Stays dir q far tag l.name (asset_body response)))))

    export_release-Stays :
        (it : Releases.ReleaseItem)
        → Stays q (Releases.export_release web enc decode c fuel repo.path dir it)
    unfolding Releases.export_release
    export_release-Stays it =
        fetch_write-Stays (text "write release") _
          (λ assets. write_release enc dir (Releases.to_release it assets))
          (download_all-Stays (λ (l : Releases.AssetLink). l.name)
            (Releases.download_asset web enc decode c fuel repo.path dir it.tag_name)
            it.assets.links (download_asset-Stays it.tag_name))
          (λ assets. write_release-Stays dir q far enc (Releases.to_release it assets))

    pub export_releases-Stays : Stays q (Releases.export_releases web enc decode c fuel repo dir)
    unfolding Releases.export_releases Releases.fetch_releases_page
    export_releases-Stays =
        each_linked-Stays (Releases.fetch_releases_page web enc decode c fuel repo.path)
          (Releases.export_release web enc decode c fuel repo.path dir) fuel 1
          (λ n. wrapping-Stays (text "list gitlab releases") _ (
            get_optional-Stays web sends q c decode
              (project_sub_url web c repo.path (text "releases") n) repo.path))
          export_release-Stays
