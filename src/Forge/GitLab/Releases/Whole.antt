-- ===== src/Forge/GitLab/Releases/Whole.antt =====
-- internal/gitlab/release.go: what the export of a release leaves on disk.
use backup_git_repos.Base.{
  Option, Text, text, ℕ, List, [], ◌≡◌, refl, ◌∙◌, ap, true, has_prefix, inl, inr,
}
use backup_git_repos.FilePath.{FilePath}
use backup_git_repos.Fs.{get}
use backup_git_repos.Error.{ok, err, wrap, unauthenticated_redirect}
use backup_git_repos.Error.Steps.{Result-cases}
use backup_git_repos.World.{World}
use backup_git_repos.World.Keeps.{wrap_result-eq-ok}
use backup_git_repos.Metadata.Write.{Encoders, write_release_asset}
use backup_git_repos.Metadata.Write.Releases.{Untouched, write_release_asset-keeps}
use backup_git_repos.Forge.Http.{Web, Request, Response, whole_url, check_status, asset_body}
use backup_git_repos.Forge.Export.Assets.{
  IsStored, write_release_asset-IsStored, TwoFiles, names_of,
}
use backup_git_repos.Forge.Export.Release.{IsWhole, exported-IsWhole}
use backup_git_repos.Forge.Export.Lands.{Pairwise}
use backup_git_repos.Forge.GitLab.{Client, get_request}
use backup_git_repos.Forge.GitLab.Releases.{
  AssetLink, ReleaseItem, to_release, resolve_asset_url, check_signed_in, download_asset,
  export_release,
}

module _ (web : Web) (enc : Encoders) (decode : Text → Option (List ReleaseItem)) (c : Client)
    (fuel : ℕ) (project : Text) where
  -- A request for a page of the web changes nothing on disk.
  abbrev pub Quiet : Type 0
  Quiet = (request : Request) (w : World) → (web.send request w).1.fs ≡ w.fs

  -- A link whose page is the one to sign in at is refused, and nothing is written.
  download_asset_signed_out :
      (dir : FilePath) (tag_name : Text) (l : AssetLink) (url : Text) (r : Response) (w w' : World)
      → resolve_asset_url web c project l ≡ ok url
      → web.send (get_request web c (whole_url url)) w ≡ (ok r, w')
      → r.status ≡ 200
      → has_prefix (r.header (text "Content-Type")) (text "text/html") ≡ true
      → download_asset web enc decode c fuel project dir tag_name l w
        ≡ (err (wrap (text "download gitlab release asset") unauthenticated_redirect), w')
  unfolding download_asset check_status check_signed_in
  download_asset_signed_out dir tag_name l url r w w' resolved sent good html =
      rw (resolved, sent, good, html) refl

  module _ (quiet : Quiet) (dir : FilePath) (tag_name : Text) where
    download-keeps :
        (l : AssetLink) (q : FilePath) (w : World)
        → Untouched dir tag_name l.name q
        → get q (download_asset web enc decode c fuel project dir tag_name l w).1.fs ≡ get q w.fs
    unfolding download_asset
    download-keeps l q w u = elim (Result-cases (resolve_asset_url web c project l)) [
      | inr (e, p) ↦ rw p refl
      | inl (url, p) ↦
          let request = get_request web c (whole_url url) in
          let v = (web.send request w).1 in
          let same = ap (get q) (quiet request w) in
          elim (Result-cases (web.send request w).0) [
            | inr (e, s) ↦ rw (p, s) same
            | inl (r, s) ↦ elim (Result-cases (check_status r)) [
              | inr (e, g) ↦ rw (p, s, g) same
              | inl (good, g) ↦ elim (Result-cases (check_signed_in r)) [
                | inr (e, k) ↦ rw (p, s, g, k) same
                | inl (signed, k) ↦
                    rw (p, s, g, k)
                      (write_release_asset-keeps dir tag_name l.name (asset_body r) q v u ∙ same)
              ]
            ]
          ]
    ]

    download-stores :
        (l : AssetLink) (w : World) (n : ℕ)
        → (download_asset web enc decode c fuel project dir tag_name l w).0 ≡ ok n
        → IsStored dir tag_name l.name n
            (download_asset web enc decode c fuel project dir tag_name l w).1
    unfolding download_asset
    download-stores l w n h = elim (Result-cases (resolve_asset_url web c project l)) [
      | inr (e, p) ↦ cc (rw p at h)
      | inl (url, p) ↦
          let request = get_request web c (whole_url url) in
          let v = (web.send request w).1 in
          elim (Result-cases (web.send request w).0) [
            | inr (e, s) ↦ cc (rw (p, s) at h)
            | inl (r, s) ↦ elim (Result-cases (check_status r)) [
              | inr (e, g) ↦ cc (rw (p, s, g) at h)
              | inl (good, g) ↦ elim (Result-cases (check_signed_in r)) [
                | inr (e, k) ↦ cc (rw (p, s, g, k) at h)
                | inl (signed, k) ↦
                    let context = text "download gitlab release asset" in
                    let wrote = write_release_asset dir tag_name l.name (asset_body r) v in
                    rw (p, s, g, k)
                      (write_release_asset-IsStored dir tag_name l.name (asset_body r) v n
                        (wrap_result-eq-ok context wrote.0 n (rw (p, s, g, k) at h)))
              ]
            ]
          ]
    ]

  -- Where a release's export succeeds and no two of its links have names that sanitise to one file,
  -- its release.json lists exactly its links, each standing on disk and as long as it says, given
  -- that requests change nothing on disk.
  pub export_release-IsWhole :
      (dir : FilePath) (it : ReleaseItem) (w : World)
      → Quiet
      → Pairwise TwoFiles (names_of (λ (l : AssetLink). l.name) it.assets.links)
      → (export_release web enc decode c fuel project dir it w).0 ≡ ok tt
      → IsWhole enc dir
          (to_release it [])
          (names_of (λ (l : AssetLink). l.name) it.assets.links)
          (export_release web enc decode c fuel project dir it w).1
  unfolding export_release to_release
  export_release-IsWhole dir it w quiet far h =
      exported-IsWhole (λ (l : AssetLink). l.name) dir (to_release it [])
        (download_asset web enc decode c fuel project dir it.tag_name)
        (download-stores quiet dir it.tag_name) (download-keeps quiet dir it.tag_name) enc
        it.assets.links w far h
