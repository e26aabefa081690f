-- ===== src/Forge/Forgejo/Releases.antt =====
-- internal/forgejo/release.go: the exporter of Forgejo's releases and their assets.
use backup_git_repos.Base.{Text, text, ℕ, List, Option, none, some}
use backup_git_repos.FilePath.{FilePath}
use backup_git_repos.Error.{Result, ok, err, wrap, external}
use backup_git_repos.World.{Io, wrapping, ◌>>=◌, ◌>>◌}
use backup_git_repos.Repo.{Repo}
use backup_git_repos.Metadata.{releases}
use backup_git_repos.Metadata.Write.{
  Release, ReleaseAsset, Encoders, write_release, write_release_asset,
}
use backup_git_repos.Run.Types.{MetadataExporter}
use backup_git_repos.Forge.Http.{Web, Request, whole_url, check_status, asset_body}
use backup_git_repos.Forge.Export.{each_page, download_all}
use backup_git_repos.Forge.Forgejo.{Client, page_size}
use backup_git_repos.Forge.Forgejo.Issues.{User, token_header, get_json, repo_url, page_query}

-- `forgeAsset`
pub record AssetItem : Type 0 where
  pub name : Text
  pub size : ℕ
  pub browser_download_url : Text

-- `forgeRelease`
pub record ReleaseItem : Type 0 where
  pub tag_name : Text
  pub name : Text
  pub body : Text
  pub author : User
  pub created_at : Text
  pub published_at : Option Text
  pub assets : List AssetItem

unfoldable pub to_release : ReleaseItem → List ReleaseAsset → Release
to_release it assets = record {
  tag_name = it.tag_name;
  name = it.name;
  body = it.body;
  author = it.author.login;
  created_at = it.created_at;
  published_at = it.published_at;
  assets = some assets;
}

-- The client's own address in the place of the one that the forge reports.
unfoldable pub resolve_asset_url : Web → Client → Text → Result Text
resolve_asset_url web c raw = elim (web.url_path raw) [
  | none ↦ err (wrap (text "parse asset url") (external (text "url")))
  | some path ↦ ok (web.rehost c.base_url raw)
]

unfoldable pub asset_request : Client → Text → Request
asset_request c url = record { url = whole_url url; headers = token_header c }

module _ (web : Web) (enc : Encoders) (decode : Text → Option (List ReleaseItem)) (c : Client)
    (fuel : ℕ) where
  unfoldable pub fetch_releases_page : Text → ℕ → Io (List ReleaseItem)
  fetch_releases_page repo_path page =
      wrapping (text "list forgejo releases")
        (get_json web c decode (repo_url c repo_path (text "/releases") (page_query web page)))

  unfoldable pub download_asset : FilePath → Text → AssetItem → Io ℕ
  download_asset dir tag_name a = wrapping (text "download forgejo release asset") (do
    url ← λ w. (resolve_asset_url web c a.browser_download_url, w)
    response ← web.send (asset_request c url)
    λ w. (check_status response, w)
    write_release_asset dir tag_name a.name (asset_body response))

  unfoldable pub export_release : FilePath → ReleaseItem → Io (Unit {0})
  export_release dir it = do
    assets ← download_all (λ (a : AssetItem). a.name) (download_asset dir it.tag_name) it.assets
    wrapping (text "write release") (write_release enc dir (to_release it assets))

  unfoldable pub export_releases : Repo → FilePath → Io (Unit {0})
  export_releases repo dir =
      each_page (fetch_releases_page repo.path) (export_release dir) page_size fuel 1

  unfoldable pub release_exporter : MetadataExporter
  release_exporter = record { kind = releases; export = export_releases }
