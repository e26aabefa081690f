-- ===== src/Metadata/Write/Stays.antt =====
-- internal/backup/metadata.go: the writers keep to the directory that they are given.
use backup_git_repos.Base.{
  Text, text, ℕ, [], ◌∷◌, ◌++◌, ◌≡◌, refl, subst, arith, inl, inr, Option-cases, list_beq,
}
use backup_git_repos.FilePath.{FilePath, join}
use backup_git_repos.Fs.Update.{Apart}
use backup_git_repos.World.{mkdir_all, write_file}
use backup_git_repos.World.Near.{Stays, Apart-below, mkdir_all-Near, write_file-Near, remove-Near}
use backup_git_repos.Metadata.{release_dir, sanitize_name, replace_separator}
use backup_git_repos.Metadata.Names.{join-sanitize_name}
use backup_git_repos.Metadata.Write.{
  Issue, PullRequest, Release, Encoders, present, numbered, write_issue, write_pull_request,
  write_release, Body, copied, give_up, finish_asset, asset_path, write_release_asset,
}
use backup_git_repos.Metadata.Write.Assets.{join-assets, asset_path-eq}
use backup_git_repos.Metadata.Write.Numbered.{IsItoa, numbered-eq}

module _ (enc : Encoders) (itoa : IsItoa enc.itoa) (dir q : FilePath) (far : Apart dir q) where
  numbered-far : (n : ℕ) → Apart (numbered enc dir n) q
  numbered-far n = rw (numbered-eq enc itoa dir n) (Apart-below dir _ q far)

  pub write_issue-Stays : (issue : Issue) → Stays q (write_issue enc dir issue)
  unfolding write_issue
  write_issue-Stays issue = record {
    at = λ w. elim (Option-cases (enc.issue (record issue { comments = present issue.comments }))) [
      | inl p ↦ rw p (refl, refl)
      | inr (bytes, p) ↦
          rw p
            (write_file-Near q (numbered enc dir issue.number) bytes w (numbered-far issue.number))
    ];
  }

  pub write_pull_request-Stays : (pr : PullRequest) → Stays q (write_pull_request enc dir pr)
  unfolding write_pull_request
  write_pull_request-Stays pr = record {
    at = λ w.
        elim (Option-cases (enc.pull_request (record pr { comments = present pr.comments }))) [
          | inl p ↦ rw p (refl, refl)
          | inr (bytes, p) ↦
              rw p (write_file-Near q (numbered enc dir pr.number) bytes w (numbered-far pr.number))
        ];
  }

release_name : sanitize_name (text "release.json") ≡ text "release.json"
unfolding sanitize_name replace_separator list_beq
release_name = refl

module _ (dir q : FilePath) (far : Apart dir q) where
  release_dir-far : (tag : Text) → Apart (release_dir dir tag) q
  unfolding release_dir
  release_dir-far tag = rw (join-sanitize_name dir tag) (Apart-below dir _ q far)

  release_file-far : (tag : Text) → Apart (join (release_dir dir tag) (text "release.json")) q
  release_file-far tag =
      let inside : join (release_dir dir tag) (text "release.json")
          ≡ release_dir dir tag ++ text "release.json" ∷ [] =
        subst (λ (s : Text). join (release_dir dir tag) s ≡ release_dir dir tag ++ s ∷ [])
          release_name (join-sanitize_name (release_dir dir tag) (text "release.json")) in
      rw inside (Apart-below (release_dir dir tag) _ q (release_dir-far tag))

  assets_dir-far : (tag : Text) → Apart (join (release_dir dir tag) (text "assets")) q
  assets_dir-far tag =
      rw (join-assets (release_dir dir tag))
        (Apart-below (release_dir dir tag) _ q (release_dir-far tag))

  asset_path-far : (tag name : Text) → Apart (asset_path dir tag name) q
  asset_path-far tag name = rw (asset_path-eq dir tag name) (Apart-below dir _ q far)

  pub write_release-Stays :
      (enc : Encoders) (release : Release) → Stays q (write_release enc dir release)
  unfolding write_release
  write_release-Stays enc release = record {
    at = λ w.
        let tag = release.tag_name in
        let w₁ = (mkdir_all (release_dir dir tag) w).1 in
        let made = mkdir_all-Near q (release_dir dir tag) w (release_dir-far tag).1 in
        let file = join (release_dir dir tag) (text "release.json") in
        elim (Option-cases (enc.release (record release { assets = present release.assets }))) [
          | inl p ↦ rw p (refl, refl)
          | inr (bytes, p) ↦
              let written = write_file-Near q file bytes w₁ (release_file-far tag) in
              rw p (ground (arith, made.0, made.1, written.0, written.1))
        ];
  }

  finish_asset-Stays :
      (path : FilePath) (body : Body) → Apart path q → Stays q (finish_asset path body)
  unfolding finish_asset give_up
  finish_asset-Stays path body away = record {
    at = λ w. let gone = remove-Near q path w away in ground (arith, gone.0, gone.1);
  }

  -- Whatever names the forge gives to the tag and to the asset.
  pub write_release_asset-Stays :
      (tag name : Text) (body : Body) → Stays q (write_release_asset dir tag name body)
  unfolding write_release_asset
  write_release_asset-Stays tag name body = record {
    at = λ w.
        let path = asset_path dir tag name in
        let assets = join (release_dir dir tag) (text "assets") in
        let w₁ = (mkdir_all assets w).1 in
        let made = mkdir_all-Near q assets w (assets_dir-far tag).1 in
        let w₂ = (write_file path (copied body) w₁).1 in
        let written = write_file-Near q path (copied body) w₁ (asset_path-far tag name) in
        let done = (finish_asset-Stays path body (asset_path-far tag name)).at w₂ in
        ground (arith, made.0, made.1, written.0, written.1, done.0, done.1);
  }
