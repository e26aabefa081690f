-- ===== src/Tests/Export.antt =====
-- The theorems on the exporters, at a forge with an issue, a pull request and a release.
use backup_git_repos.Base.{
  Text, text, ℕ, zero, suc, ◌-◌, List, [], ◌∷◌, Option, none, some, take, ◌≡◌, refl, ap, arith,
  true, lacks, length, list_beq, split_on, push_first, has_prefix,
}
use backup_git_repos.FilePath.{FilePath, join, walk_parts, enter, out_of, dir_of}
use backup_git_repos.Fs.{get, alter, find, set_entry, put_entry, remove_entry, make_dirs, within}
use backup_git_repos.Error.{Err, Result, ok, err, wrap, unexpected_status}
use backup_git_repos.World
use backup_git_repos.World.{World}
use backup_git_repos.Metadata.Write
use backup_git_repos.Metadata.Write.{Encoders}
use backup_git_repos.Metadata.Write.Numbered.{IsItoa}
use backup_git_repos.Forge.Http
use backup_git_repos.Forge.Http.{Web}
use backup_git_repos.Forge.Paging
use backup_git_repos.Forge.Paging.Complete.{rest_after, drop}
use backup_git_repos.Forge.Export
use backup_git_repos.Forge.Export.Lands.{Pairwise}
use backup_git_repos.Forge.GitHub
use backup_git_repos.Forge.GitHub.Issues
use backup_git_repos.Forge.GitHub.Issues.{IssueItem, CommentItem, Decoders, export_issues}
use backup_git_repos.Metadata.{release_dir, sanitize_name, replace_separator}
use backup_git_repos.Metadata.Write.Releases.{json_path}
use backup_git_repos.Forge.Export.Assets.{TwoFiles}
use backup_git_repos.Forge.Export.Release.{IsWhole}
use backup_git_repos.Forge.GitHub.Releases as GitHubReleases
use backup_git_repos.Forge.GitHub.Releases.Failed.{export_release_failed}
use backup_git_repos.Forge.GitLab
use backup_git_repos.Forge.GitLab.Releases as GitLabReleases
use backup_git_repos.Forge.GitLab.Releases.{AssetLink}
use backup_git_repos.Forge.GitLab.Releases.Whole.{export_release-IsWhole}
use backup_git_repos.Tests.{sample_world, sample_fs, repo_x}
use backup_git_repos.Tests.Forge.{paging_web}

-- A number as so many strokes.
abbrev pub strokes : ℕ → Text
strokes zero = []
strokes (suc n) = b'i' ∷ strokes n

strokes-lacks : (n : ℕ) → lacks b'/' (strokes n) ≡ true
unfolding lacks
strokes-lacks zero = refl
strokes-lacks (suc n) = strokes-lacks n

length-strokes : (n : ℕ) → length (strokes n) ≡ n
length-strokes zero = refl
length-strokes (suc n) = omega (arith, length-strokes n)

pub strokes-IsItoa : IsItoa strokes
strokes-IsItoa = record {
  digits = strokes-lacks;
  distinct = λ m n e. omega (arith, ap length e, length-strokes m, length-strokes n);
}

abbrev pub titles : Encoders
titles = record {
  issue = λ issue. some issue.title;
  release = λ release. some release.name;
  pull_request = λ pr. some pr.title;
  itoa = strokes;
}

abbrev notes : FilePath
notes = text "b" ∷ text "f" ∷ []

abbrev issue_item : ℕ → Text → Option Text → IssueItem
issue_item number title pull = record {
  number = number;
  title = title;
  body = [];
  user = record { login = text "a" };
  state = text "open";
  labels = [];
  created_at = [];
  updated_at = [];
  closed_at = none;
  pull_request = pull;
}

abbrev items : List IssueItem
items = issue_item 1 (text "bug") none ∷ issue_item 2 (text "fix") (some (text "{}")) ∷ []

abbrev said : List CommentItem
said = record { user = record { login = text "b" }; body = text "yes"; created_at = [] } ∷ []

-- What the page of a number decodes to.
abbrev paged : {A : Type 0} → List A → Text → Option (List A)
paged listed [] = none
paged listed (page ∷ body) = some (take 100 (rest_after 100 (page - 1) listed))

abbrev decoders : Decoders
decoders = record { issues = paged items; comments = paged said }

abbrev client : GitHub.Client
client = record { base_url = text "https://api.github.com"; token = text "t" }

issues_now : Result (Unit {0}) × World
unfolding export_issues Issues.fetch_issues_page Issues.fetch_comments_page Issues.fetch_comments
    Issues.write_with_comments Issues.unless_pull_request Issues.export_issue Issues.get_json
    Issues.repo_url Issues.to_issue Http.get_with Http.json_value GitHub.page_size Export.each_page
    Export.page_round Export.each Export.page_end Paging.pages Paging.page_then Paging.collect
    Paging.consider Paging.last_page rest_after drop take Write.write_issue World.write_file
    World.writable get find alter set_entry put_entry list_beq dir_of join walk_parts enter out_of
    split_on push_first
issues_now = export_issues (paging_web 200 []) titles decoders client 3 repo_x notes sample_world

-- A forge that answers every request with the same bytes.
abbrev answering : ℕ → Text → Text → Web
answering status content_type body = record (paging_web status []) {
  send = λ request w. (
    ok (record { status = status; header = λ name. content_type; body = body; broken = none }),
    w,
  );
}

abbrev asset_link : AssetLink
asset_link = record {
  name = text "a.bin";
  url = text "http://localhost/a";
  direct_asset_url = text "http://localhost/a";
}

abbrev gitlab_release : GitLabReleases.ReleaseItem
gitlab_release = record {
  tag_name = text "v1";
  name = text "one";
  description = [];
  author = record { username = text "a" };
  created_at = [];
  released_at = none;
  assets = record { links = asset_link ∷ [] };
}

abbrev gitlab_client : GitLab.Client
gitlab_client = record { base_url = text "https://gitlab"; token = text "t" }

gitlab_now : Result (Unit {0}) × World
unfolding GitLabReleases.export_release GitLabReleases.download_asset GitLabReleases.to_release
    GitLabReleases.resolve_asset_url GitLabReleases.resolve_parsed GitLabReleases.candidate
    GitLabReleases.find_uploads GitLabReleases.is_uploads GitLabReleases.uploads_parts
    GitLabReleases.two_parts GitLabReleases.check_signed_in GitLab.get_request Http.check_status
    Export.download_all Write.write_release Write.write_release_asset Write.asset_path
    Write.finish_asset Write.written_error Write.copied Write.copy_error
    Write.max_release_asset_size release_dir sanitize_name replace_separator take World.mkdir_all
    World.write_file World.writable make_dirs within get find alter set_entry put_entry remove_entry
    list_beq dir_of join walk_parts enter out_of split_on push_first has_prefix
gitlab_now =
    GitLabReleases.export_release (answering 200 (text "application/zip") (text "bits")) titles
      (λ body. none) gitlab_client 1 (text "g/p") notes gitlab_release sample_world

gitlab_exported : gitlab_now.0 ≡ ok tt
unfolding gitlab_now
gitlab_exported = refl

one_file : Pairwise TwoFiles (text "a.bin" ∷ [])
unfolding Pairwise
one_file = (tt, tt)

export_release-IsWhole_example :
    IsWhole titles notes
      (GitLabReleases.to_release gitlab_release [])
      (text "a.bin" ∷ [])
      gitlab_now.1
unfolding gitlab_now
export_release-IsWhole_example =
    export_release-IsWhole (answering 200 (text "application/zip") (text "bits")) titles
      (λ body. none) gitlab_client 1 (text "g/p") notes gitlab_release sample_world
      (λ request w. refl) one_file gitlab_exported

abbrev github_release : GitHubReleases.ReleaseItem
github_release = record {
  tag_name = text "v1";
  name = text "one";
  body = [];
  author = record { login = text "a" };
  created_at = [];
  published_at = none;
  assets = record { name = text "a.bin"; size = 4; url = text "https://api.github.com/a" } ∷ [];
}

abbrev missing_web : Web
missing_web = answering 404 [] []

abbrev missing_error : Err
missing_error = wrap (text "download github release asset") (unexpected_status 404)

asset_fails :
    (Export.download_all
      (λ (a : GitHubReleases.AssetItem). a.name)
      (GitHubReleases.download_asset missing_web titles (λ body. none) client 1 notes (text "v1"))
      github_release.assets
      sample_world).0
    ≡ err missing_error
unfolding Export.download_all GitHubReleases.download_asset Http.check_status
asset_fails = refl

export_release_failed_example :
    get
      (json_path notes (text "v1"))
      (GitHubReleases.export_release missing_web titles
        (λ body. none)
        client
        1
        notes
        github_release
        sample_world).1.fs
    ≡ get (json_path notes (text "v1")) sample_fs
export_release_failed_example =
    export_release_failed missing_web titles (λ body. none) client 1 (λ request w. refl) notes
      github_release sample_world missing_error asset_fails
