-- ===== src/Tests/Uploads.antt =====
-- An asset of a GitLab release that was uploaded to its project.
use backup_git_repos.Base.{
  Text, text, ℕ, zero, suc, [], ◌∷◌, ◌++◌, true, some, ◌≡◌, refl, list_beq, split_on, push_first,
}
use backup_git_repos.Error.{ok, err, external}
use backup_git_repos.Forge.Http.{Web}
use backup_git_repos.Forge.GitLab.{Client}
use backup_git_repos.Forge.GitLab.Releases.{
  AssetLink, two_parts, uploads_parts, is_uploads, find_uploads, candidate, resolve_parsed,
  resolve_asset_url,
}

behind : ℕ → Text → Text
behind zero url = url
behind (suc n) [] = []
behind (suc n) (x ∷ url) = behind n url

-- Every URL is one of a host whose name, with its scheme, has 14 bytes.
abbrev host_web : Web
host_web = record {
  send = λ request w. (err (external (text "offline")), w);
  valid_url = λ url. true;
  join_url = λ base path. base ++ path;
  url_path = λ url. some (behind 14 url);
  rehost = λ base url. base ++ behind 14 url;
  path_escape = λ path. text "g%2Fp";
  itoa = λ n. [];
  base64 = λ s. s;
}

abbrev host_client : Client
host_client = record { base_url = text "http://gitlab2"; token = text "t" }

abbrev uploaded : AssetLink
uploaded = record {
  name = text "x.zip";
  url = text "http://gitlab1/g/p/uploads/ab/x.zip";
  direct_asset_url = [];
}

abbrev packaged : AssetLink
packaged = record {
  name = text "x.zip";
  url = text "http://gitlab1/p";
  direct_asset_url = text "http://gitlab1/uploads/x.zip";
}

uploaded_by_api :
    resolve_asset_url host_web host_client (text "g/p") uploaded
    ≡ ok (text "http://gitlab2/api/v4/projects/g%2Fp/uploads/ab/x.zip")
unfolding behind resolve_asset_url resolve_parsed candidate find_uploads is_uploads uploads_parts
    two_parts list_beq split_on push_first
uploaded_by_api = refl

packaged_rehosted :
    resolve_asset_url host_web host_client (text "g/p") packaged
    ≡ ok (text "http://gitlab2/uploads/x.zip")
unfolding behind resolve_asset_url resolve_parsed candidate find_uploads is_uploads uploads_parts
    two_parts list_beq split_on push_first
packaged_rehosted = refl
