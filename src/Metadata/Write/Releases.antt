-- ===== src/Metadata/Write/Releases.antt =====
-- internal/backup/metadata.go: the files of a release, and what writing one of them leaves of the
-- others.
use backup_git_repos.Base.{
  Text, text, [], ◌∷◌, ◌++◌, ◌≡◌, ◌≢◌, refl, sym, ◌∙◌, ap, subst, false, some, arith, nat_eq,
  list_eq, list_beq, list_beq_iff, append_assoc, Option, Option-cases, inl, inr,
}
use backup_git_repos.FilePath.{FilePath, join}
use backup_git_repos.Fs.{file, get}
use backup_git_repos.Fs.Update.{at_or_above, at_or_above-append, Apart}
use backup_git_repos.Error.{ok}
use backup_git_repos.Error.Steps.{Result-cases}
use backup_git_repos.World.{World, mkdir_all, write_file}
use backup_git_repos.World.Keeps.{
  get-mkdir_all, get-remove, get-write_file, get-write_file_of_Apart,
}
use backup_git_repos.Metadata.{release_dir, sanitize_name, replace_separator}
use backup_git_repos.Metadata.Names.{join-sanitize_name}
use backup_git_repos.Metadata.Write.{
  Release, Encoders, Body, present, copied, give_up, finish_asset, asset_path, write_release,
  write_release_asset,
}
use backup_git_repos.Metadata.Write.Assets.{asset_path-eq, join-assets}

-- Where a release's release.json stands, and the directory of its assets.
abbrev pub json_path : FilePath → Text → FilePath
json_path dir tag_name = join (release_dir dir tag_name) (text "release.json")

abbrev pub assets_dir : FilePath → Text → FilePath
assets_dir dir tag_name = join (release_dir dir tag_name) (text "assets")

module _ (dir : FilePath) (tag_name : Text) where
  abbrev tag : Text
  tag = sanitize_name tag_name

  release_dir-eq : release_dir dir tag_name ≡ dir ++ tag ∷ []
  unfolding release_dir
  release_dir-eq = join-sanitize_name dir tag_name

  json_name : sanitize_name (text "release.json") ≡ text "release.json"
  unfolding sanitize_name replace_separator list_beq
  json_name = refl

  json_path-eq : json_path dir tag_name ≡ dir ++ tag ∷ text "release.json" ∷ []
  json_path-eq =
      subst (λ (s : Text). join (release_dir dir tag_name) s ≡ release_dir dir tag_name ++ s ∷ [])
        json_name (join-sanitize_name (release_dir dir tag_name) (text "release.json"))
      ∙ ap (λ (p : FilePath). p ++ text "release.json" ∷ []) release_dir-eq
      ∙ append_assoc dir (tag ∷ []) (text "release.json" ∷ [])

  assets_dir-eq : assets_dir dir tag_name ≡ dir ++ tag ∷ text "assets" ∷ []
  assets_dir-eq =
      join-assets (release_dir dir tag_name)
      ∙ ap (λ (p : FilePath). p ++ text "assets" ∷ []) release_dir-eq
      ∙ append_assoc dir (tag ∷ []) (text "assets" ∷ [])

  -- Paths below one directory compare as what is below it.
  compare_below :
      {p q : FilePath} (r s : FilePath)
      → p ≡ dir ++ r
      → q ≡ dir ++ s
      → at_or_above r s ≡ false
      → at_or_above p q ≡ false
  compare_below r s e f h = rw (e, f, at_or_above-append dir r s) h

  -- A path that no write of an asset but its own touches.
  pub record Untouched (asset_name : Text) (q : FilePath) : Type 0 where
    pub no_directory : at_or_above q (assets_dir dir tag_name) ≡ false
    pub apart : Apart (asset_path dir tag_name asset_name) q

  asset-no_directory :
      (a : Text) → at_or_above (asset_path dir tag_name a) (assets_dir dir tag_name) ≡ false
  unfolding at_or_above
  asset-no_directory a =
      compare_below (tag ∷ text "assets" ∷ sanitize_name a ∷ []) (tag ∷ text "assets" ∷ [])
        (asset_path-eq dir tag_name a) assets_dir-eq (ground (arith, list_beq_iff tag tag))

  differ :
      (a b : Text)
      → sanitize_name a ≢ sanitize_name b
      → at_or_above (asset_path dir tag_name a) (asset_path dir tag_name b) ≡ false
  unfolding at_or_above
  differ a b ne =
      compare_below (tag ∷ text "assets" ∷ sanitize_name a ∷ [])
        (tag ∷ text "assets" ∷ sanitize_name b ∷ []) (asset_path-eq dir tag_name a)
        (asset_path-eq dir tag_name b)
        (ground (arith, list_beq_iff (sanitize_name a) (sanitize_name b)))

  -- An asset's file, and release.json, are not touched by the writing of another asset.
  pub asset-Untouched :
      (a b : Text) → sanitize_name a ≢ sanitize_name b → Untouched a (asset_path dir tag_name b)
  asset-Untouched a b ne = record {
    no_directory = asset-no_directory b;
    apart = (differ a b ne, differ b a (λ e. ne (sym e)));
  }

  pub json-Untouched : (a : Text) → Untouched a (json_path dir tag_name)
  unfolding at_or_above list_beq
  json-Untouched a =
      let json = tag ∷ text "release.json" ∷ [] in
      let asset = tag ∷ text "assets" ∷ sanitize_name a ∷ [] in
      record {
        no_directory =
            compare_below json (tag ∷ text "assets" ∷ []) json_path-eq assets_dir-eq (ground arith);
        apart = (
          compare_below asset json (asset_path-eq dir tag_name a) json_path-eq (ground arith),
          compare_below json asset json_path-eq (asset_path-eq dir tag_name a) (ground arith),
        );
      }

  finish_asset-keeps :
      (p q : FilePath) (body : Body) (w : World)
      → Apart p q
      → get q (finish_asset p body w).1.fs ≡ get q w.fs
  unfolding finish_asset give_up
  finish_asset-keeps p q body w h = ground (arith, get-remove p q w h)

  -- Writing an asset, with or without success.
  pub write_release_asset-keeps :
      (a : Text) (body : Body) (q : FilePath) (w : World)
      → Untouched a q
      → get q (write_release_asset dir tag_name a body w).1.fs ≡ get q w.fs
  unfolding write_release_asset
  write_release_asset-keeps a body q w u =
      let path = asset_path dir tag_name a in
      let w₁ = (mkdir_all (assets_dir dir tag_name) w).1 in
      let w₂ = (write_file path (copied body) w₁).1 in
      let made = get-mkdir_all (assets_dir dir tag_name) q w u.no_directory in
      let wrote = get-write_file_of_Apart path q (copied body) w₁ u.apart in
      elim (Result-cases (mkdir_all (assets_dir dir tag_name) w).0) [
        | inr (e, p) ↦ rw p made
        | inl (done, p) ↦ elim (Result-cases (write_file path (copied body) w₁).0) [
          | inr (e, r) ↦ rw (p, r) (wrote ∙ made)
          | inl (opened, r) ↦ rw (p, r) (finish_asset-keeps path q body w₂ u.apart ∙ wrote ∙ made)
        ]
      ]

  pub asset-no_release_dir :
      (a : Text) → at_or_above (asset_path dir tag_name a) (release_dir dir tag_name) ≡ false
  unfolding at_or_above
  asset-no_release_dir a =
      compare_below (tag ∷ text "assets" ∷ sanitize_name a ∷ []) (tag ∷ [])
        (asset_path-eq dir tag_name a) release_dir-eq (ground arith)

module _ (enc : Encoders) (dir : FilePath) (release : Release) (w : World) where
  abbrev encoding : Option Text
  encoding = enc.release (record release { assets = present release.assets })

  abbrev json : FilePath
  json = json_path dir release.tag_name

  abbrev made : World
  made = (mkdir_all (release_dir dir release.tag_name) w).1

  -- Where a release is written without error, its release.json holds its encoding.
  pub write_release_lem :
      (write_release enc dir release w).0 ≡ ok tt
      → (bytes : Text) × (encoding ≡ some bytes)
        × (get json (write_release enc dir release w).1.fs ≡ some (file bytes))
  unfolding write_release
  write_release_lem h = elim (Option-cases encoding) [
    | inl p ↦ cc (rw p at h)
    | inr (bytes, p) ↦ elim (Result-cases (mkdir_all (release_dir dir release.tag_name) w).0) [
      | inr (e, q) ↦ cc (rw (p, q) at h)
      | inl (done, q) ↦ elim (Result-cases (write_file json bytes made).0) [
        | inr (e, r) ↦ cc (rw (p, q, r) at h)
        | inl (wrote, r) ↦ (bytes, p, rw (p, q) (get-write_file json bytes made r))
      ]
    ]
  ]

  -- Writing it, with or without success, leaves every asset as it is.
  pub write_release-keeps :
      (a : Text)
      → get (asset_path dir release.tag_name a) (write_release enc dir release w).1.fs
        ≡ get (asset_path dir release.tag_name a) w.fs
  unfolding write_release
  write_release-keeps a =
      let asset = asset_path dir release.tag_name a in
      let dirs =
        get-mkdir_all (release_dir dir release.tag_name) asset w
          (asset-no_release_dir dir release.tag_name a) in
      let (below, above) = (json-Untouched dir release.tag_name a).apart in
      elim (Option-cases encoding) [
        | inl p ↦ rw p refl
        | inr (bytes, p) ↦ elim (Result-cases (mkdir_all (release_dir dir release.tag_name) w).0) [
          | inr (e, q) ↦ rw (p, q) dirs
          | inl (done, q) ↦
              rw (p, q) (get-write_file_of_Apart json asset bytes made (above, below) ∙ dirs)
        ]
      ]
