-- ===== src/Forge/GitHub/Releases/Failed.antt =====
-- internal/github/release.go: a release whose assets cannot all be downloaded.
use backup_git_repos.Base.{Text, text, ℕ, List, [], Option, ◌≡◌, ◌∙◌, ap, inl, inr}
use backup_git_repos.FilePath.{FilePath}
use backup_git_repos.Fs.{get}
use backup_git_repos.Error.{Err, ok, err}
use backup_git_repos.Error.Steps.{Result-cases}
use backup_git_repos.World.{World}
use backup_git_repos.World.Keeps.{wrap_result-eq-ok}
use backup_git_repos.Metadata.Write.{Encoders, write_release_asset}
use backup_git_repos.Metadata.Write.Releases.{Untouched, write_release_asset-keeps, json_path}
use backup_git_repos.Forge.Http.{Web, Request, check_status, asset_body}
use backup_git_repos.Forge.Export.{download_all}
use backup_git_repos.Forge.Export.Assets.{IsStored, write_release_asset-IsStored}
use backup_git_repos.Forge.Export.Release.{exported_failed}
use backup_git_repos.Forge.GitHub.{Client}
use backup_git_repos.Forge.GitHub.Releases.{
  AssetItem, ReleaseItem, to_release, asset_request, download_asset, export_release,
}

module _ (web : Web) (enc : Encoders) (decode : Text → Option (List ReleaseItem)) (c : Client)
    (fuel : ℕ) (quiet : (request : Request) (w : World) → (web.send request w).1.fs ≡ w.fs)
    (dir : FilePath) where
  module _ (tag_name : Text) (a : AssetItem) (w : World) where
    abbrev asked : World
    asked = (web.send (asset_request c a) w).1

    download-keeps :
        (q : FilePath)
        → Untouched dir tag_name a.name q
        → get q (download_asset web enc decode c fuel dir tag_name a w).1.fs ≡ get q w.fs
    unfolding download_asset
    download-keeps q u =
        let same = ap (get q) (quiet (asset_request c a) w) in
        elim (Result-cases (web.send (asset_request c a) w).0) [
          | inr (e, s) ↦ rw s same
          | inl (r, s) ↦ elim (Result-cases (check_status r)) [
            | inr (e, g) ↦ rw (s, g) same
            | inl (good, g) ↦
                rw (s, g)
                  (write_release_asset-keeps dir tag_name a.name (asset_body r) q asked u ∙ same)
          ]
        ]

    download-stores :
        (n : ℕ)
        → (download_asset web enc decode c fuel dir tag_name a w).0 ≡ ok n
        → IsStored dir tag_name a.name n (download_asset web enc decode c fuel dir tag_name a w).1
    unfolding download_asset
    download-stores n h = elim (Result-cases (web.send (asset_request c a) w).0) [
      | inr (e, s) ↦ cc (rw s at h)
      | inl (r, s) ↦ elim (Result-cases (check_status r)) [
        | inr (e, g) ↦ cc (rw (s, g) at h)
        | inl (good, g) ↦
            let wrote = write_release_asset dir tag_name a.name (asset_body r) asked in
            rw (s, g)
              (write_release_asset-IsStored dir tag_name a.name (asset_body r) asked n (
                wrap_result-eq-ok (text "download github release asset") wrote.0 n
                  (rw (s, g) at h)))
      ]
    ]

  -- Where one of a release's assets cannot be downloaded, its release.json is left as it was, given
  -- that requests change nothing on disk.
  pub export_release_failed :
      (it : ReleaseItem) (w : World) (e : Err)
      → (download_all
          (λ (a : AssetItem). a.name)
          (download_asset web enc decode c fuel dir it.tag_name)
          it.assets
          w).0
        ≡ err e
      → get (json_path dir it.tag_name) (export_release web enc decode c fuel dir it w).1.fs
        ≡ get (json_path dir it.tag_name) w.fs
  unfolding export_release to_release
  export_release_failed it w e h =
      exported_failed (λ (a : AssetItem). a.name) dir (to_release it [])
        (download_asset web enc decode c fuel dir it.tag_name)
        (λ a v n. download-stores it.tag_name a v n) (λ a q v. download-keeps it.tag_name a v q) enc
        it.assets w e h
