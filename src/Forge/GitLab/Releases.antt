-- ===== src/Forge/GitLab/Releases.antt =====
-- internal/gitlab/release.go: the exporter of GitLab's releases and their assets.
pub mod Uploads
pub mod Whole
use backup_git_repos.Base.{
  Text, text, ℕ, List, [], ◌∷◌, ◌++◌, Option, none, some, Bool, true, false, not, ◌&&◌, ◌==◌,
  list_eq, nat_eq, list_beq, if◌then◌else◌, has_prefix, split_on,
}
use backup_git_repos.FilePath.{FilePath}
use backup_git_repos.Error.{Result, ok, err, wrap, external, unauthenticated_redirect}
use backup_git_repos.World.{World, Io, wrapping, settle, ◌>>=◌, ◌>>◌}
use backup_git_repos.Repo.{Repo}
use backup_git_repos.Metadata.{releases}
use backup_git_repos.Metadata.Write.{
  Release, ReleaseAsset, Encoders, write_release, write_release_asset,
}
use backup_git_repos.Run.Types.{MetadataExporter}
use backup_git_repos.Forge.Http.{Web, Response, whole_url, check_status, asset_body}
use backup_git_repos.Forge.Export.{each_linked, download_all}
use backup_git_repos.Forge.GitLab.{Client, get_optional, get_request, project_sub_url}
use backup_git_repos.Forge.GitLab.Issues.{User}

-- `glAssetLink`
pub record AssetLink : Type 0 where
  pub name : Text
  pub url : Text
  pub direct_asset_url : Text

-- `glAssets`
pub record Assets : Type 0 where
  pub links : List AssetLink

-- `glRelease`
pub record ReleaseItem : Type 0 where
  pub tag_name : Text
  pub name : Text
  pub description : Text
  pub author : User
  pub created_at : Text
  pub released_at : Option Text
  pub assets : Assets

unfoldable pub to_release : ReleaseItem → List ReleaseAsset → Release
to_release it assets = record {
  tag_name = it.tag_name;
  name = it.name;
  body = it.description;
  author = it.author.username;
  created_at = it.created_at;
  published_at = it.released_at;
  assets = some assets;
}

-- Two parts behind a separator, neither of them empty: `[^/]+/[^/]+$`.
unfoldable pub two_parts : List Text → Bool
two_parts (secret ∷ filename ∷ []) = not (secret == []) && not (filename == [])
two_parts _ = false

-- The parts of a text that the whole of `uploadsPathPattern` matches.
unfoldable pub uploads_parts : List Text → Bool
uploads_parts (before ∷ uploads ∷ parts) =
    before == [] && uploads == text "uploads" && two_parts parts
uploads_parts _ = false

-- Whether `uploadsPathPattern` matches the whole of a text.
unfoldable pub is_uploads : Text → Bool
is_uploads path = uploads_parts (split_on b'/' path)

-- `uploadsPathPattern.FindString`: the first suffix that matches, empty where none does.
unfoldable pub find_uploads : Text → Text
find_uploads [] = []
find_uploads (x ∷ path) =
    let rest = find_uploads path in if is_uploads (x ∷ path) then x ∷ path else rest

-- The URL that is looked at.
unfoldable pub candidate : AssetLink → Text
candidate l = if l.direct_asset_url == [] then l.url else l.direct_asset_url

-- `resolveAssetURL` behind the parsing of its URL, whose path this is.
unfoldable pub resolve_parsed : Web → Client → Text → AssetLink → Text → Text
resolve_parsed web c project_path l path =
    let uploads_path = find_uploads path in
    if not (uploads_path == [])
    then web.join_url c.base_url
        (text "/api/v4/projects/" ++ (web.path_escape project_path ++ uploads_path))
    else if l.direct_asset_url == []
    then l.url
    else web.rehost c.base_url l.direct_asset_url

unfoldable pub resolve_asset_url : Web → Client → Text → AssetLink → Result Text
resolve_asset_url web c project_path l = elim (web.url_path (candidate l)) [
  | none ↦ err (wrap (text "parse asset url") (external (text "url")))
  | some path ↦ ok (resolve_parsed web c project_path l path)
]

-- An answer in HTML is the page to sign in at.
unfoldable pub check_signed_in : Response → Result (Unit {0})
check_signed_in r =
    if has_prefix (r.header (text "Content-Type")) (text "text/html")
    then err unauthenticated_redirect
    else ok tt

module _ (web : Web) (enc : Encoders) (decode : Text → Option (List ReleaseItem)) (c : Client)
    (fuel : ℕ) where
  unfoldable pub fetch_releases_page : Text → ℕ → Io (List ReleaseItem × Text)
  fetch_releases_page project_path page = wrapping (text "list gitlab releases") (
      get_optional web c decode (project_sub_url web c project_path (text "releases") page)
        project_path)

  unfoldable pub download_asset : Text → FilePath → Text → AssetLink → Io ℕ
  download_asset project_path dir tag_name l = wrapping (text "download gitlab release asset") (do
    url ← λ w. (resolve_asset_url web c project_path l, w)
    response ← web.send (get_request web c (whole_url url))
    λ w. (check_status response, w)
    λ w. (check_signed_in response, w)
    write_release_asset dir tag_name l.name (asset_body response))

  unfoldable pub export_release : Text → FilePath → ReleaseItem → Io (Unit {0})
  export_release project_path dir it = do
    assets ←
        download_all (λ (l : AssetLink). l.name) (download_asset project_path dir it.tag_name)
          it.assets.links
    wrapping (text "write release") (write_release enc dir (to_release it assets))

  unfoldable pub export_releases : Repo → FilePath → Io (Unit {0})
  export_releases repo dir =
      each_linked (fetch_releases_page repo.path) (export_release repo.path dir) fuel 1

  unfoldable pub release_exporter : MetadataExporter
  release_exporter = record { kind = releases; export = export_releases }
