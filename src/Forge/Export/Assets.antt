-- ===== src/Forge/Export/Assets.antt =====
-- The loop over a release's assets, on disk: what is listed stands there.
use backup_git_repos.Base.{
  Text, ℕ, List, [], ◌∷◌, ◌≡◌, ◌≢◌, refl, sym, ◌∙◌, subst, length, some, All, inl, inr,
}
use backup_git_repos.FilePath.{FilePath}
use backup_git_repos.Fs.{file, get}
use backup_git_repos.Error.{ok}
use backup_git_repos.Error.Steps.{Result-cases, ok-injective}
use backup_git_repos.World.{World, Io}
use backup_git_repos.Metadata.{sanitize_name}
use backup_git_repos.Metadata.Write.{ReleaseAsset, Body, asset_path, write_release_asset}
use backup_git_repos.Metadata.Write.Assets.{asset_path-eq, write_release_asset-IsWhole}
use backup_git_repos.Metadata.Write.Releases.{Untouched, asset-Untouched}
use backup_git_repos.Forge.Export.{download_all}
use backup_git_repos.Forge.Export.Lands.{Pairwise}

-- An asset stands on disk, as long as it is said to be.
abbrev pub IsStored : FilePath → Text → Text → ℕ → World → Type 0
IsStored dir tag_name name size w =
    (content : Text) × (get (asset_path dir tag_name name) w.fs ≡ some (file content))
    × (size ≡ length content)

pub write_release_asset-IsStored :
    (dir : FilePath) (tag_name name : Text) (body : Body) (w : World) (n : ℕ)
    → (write_release_asset dir tag_name name body w).0 ≡ ok n
    → IsStored dir tag_name name n (write_release_asset dir tag_name name body w).1
write_release_asset-IsStored dir tag_name name body w n h =
    let (whole, there) = write_release_asset-IsWhole dir tag_name name body w n h in
    (
      body.content,
      subst
          (λ (p : FilePath).
            get p (write_release_asset dir tag_name name body w).1.fs ≡ some (file body.content))
          (sym (asset_path-eq dir tag_name name)) there,
      whole.size,
    )

-- What a release lists of these assets: each by its name, and standing on disk.
unfoldable pub AllStored : FilePath → Text → List Text → List ReleaseAsset → World → Type 0
AllStored dir tag_name [] [] w = Unit
AllStored dir tag_name (name ∷ names) (a ∷ listed) w =
    (a.name ≡ name) × IsStored dir tag_name name a.size w × AllStored dir tag_name names listed w
AllStored dir tag_name _ _ w = ⊥

-- Two names that stand for different files.
abbrev pub TwoFiles : Text → Text → Type 0
TwoFiles a b = sanitize_name b ≢ sanitize_name a

abbrev pub names_of : {A : Type 0} → (A → Text) → List A → List Text
names_of name [] = []
names_of name (a ∷ items) = name a ∷ names_of name items

pub AllStored-moved :
    (dir : FilePath) (tag_name : Text) (names : List Text) (listed : List ReleaseAsset)
    (v w : World)
    → ((name : Text)
        → get (asset_path dir tag_name name) w.fs ≡ get (asset_path dir tag_name name) v.fs)
    → AllStored dir tag_name names listed v
    → AllStored dir tag_name names listed w
unfolding AllStored
AllStored-moved dir tag_name [] [] v w h s = tt
AllStored-moved dir tag_name [] (a ∷ listed) v w h s = absurd s
AllStored-moved dir tag_name (name ∷ names) [] v w h s = absurd s
AllStored-moved dir tag_name (name ∷ names) (a ∷ listed) v w h
      (named, (content, there, long), rest) =
    (named, (content, h name ∙ there, long), AllStored-moved dir tag_name names listed v w h rest)

module _ {A : Type 0} (name : A → Text) (dir : FilePath) (tag_name : Text) (download : A → Io ℕ)
    (stores : (a : A) (w : World) (n : ℕ)
      → (download a w).0 ≡ ok n
      → IsStored dir tag_name (name a) n (download a w).1)
    (keeps : (a : A) (q : FilePath) (w : World)
      → Untouched dir tag_name (name a) q
      → get q (download a w).1.fs ≡ get q w.fs) where
  -- The assets that are downloaded, all of them or up to a failure, touch nothing else.
  pub download_all-keeps :
      (assets : List A) (q : FilePath) (w : World)
      → All (λ (a : A). Untouched dir tag_name (name a) q) assets
      → get q (download_all name download assets w).1.fs ≡ get q w.fs
  unfolding download_all
  download_all-keeps [] q w far = refl
  download_all-keeps (a ∷ assets) q w far =
      let first = keeps a q w far.0 in
      let w₁ = (download a w).1 in
      elim (Result-cases (download a w).0) [
        | inr (e, p) ↦ rw p first
        | inl (n, p) ↦
            let rest = download_all-keeps assets q w₁ far.1 in
            elim (Result-cases (download_all name download assets w₁).0) [
              | inr (e, r) ↦ rw (p, r) (rest ∙ first)
              | inl (listed, r) ↦ rw (p, r) (rest ∙ first)
            ]
      ]

  every_other-Untouched :
      (a : A) (assets : List A)
      → All (TwoFiles (name a)) (names_of name assets)
      → All (λ (b : A). Untouched dir tag_name (name b) (asset_path dir tag_name (name a))) assets
  every_other-Untouched a [] far = tt
  every_other-Untouched a (b ∷ assets) far =
      (asset-Untouched dir tag_name (name b) (name a) far.0, every_other-Untouched a assets far.1)

  download_all-cons :
      (a : A) (assets : List A) (w : World) (n : ℕ) (rest : List ReleaseAsset)
      → (download a w).0 ≡ ok n
      → (download_all name download assets (download a w).1).0 ≡ ok rest
      → download_all name download (a ∷ assets) w ≡ (
        ok (record { name = name a; size = n } ∷ rest),
        (download_all name download assets (download a w).1).1,
      )
  unfolding download_all
  download_all-cons a assets w n rest p r = rw (p, r) refl

  -- Where all are downloaded and no two share a file, what is listed stands on disk.
  pub download_all-AllStored :
      (assets : List A) (w : World) (listed : List ReleaseAsset)
      → Pairwise TwoFiles (names_of name assets)
      → (download_all name download assets w).0 ≡ ok listed
      → AllStored dir tag_name (names_of name assets) listed (download_all name download assets w).1
  unfolding AllStored Pairwise download_all
  download_all-AllStored [] w listed far h =
      subst (λ (l : List ReleaseAsset). AllStored dir tag_name [] l w) (ok-injective [] listed h) tt
  download_all-AllStored (a ∷ assets) w listed far h =
      let w₁ = (download a w).1 in
      elim (Result-cases (download a w).0) [
        | inr (e, p) ↦ cc (rw p at h)
        | inl (n, p) ↦ elim (Result-cases (download_all name download assets w₁).0) [
          | inr (e, r) ↦ cc (rw (p, r) at h)
          | inl (rest, r) ↦
              let whole = download_all-cons a assets w n rest p r in
              let w₂ = (download_all name download assets w₁).1 in
              let (content, there, long) = stores a w n p in
              let safe =
                download_all-keeps assets (asset_path dir tag_name (name a)) w₁
                  (every_other-Untouched a assets far.0) in
              rw whole (
                subst
                  (λ (l : List ReleaseAsset).
                    AllStored dir tag_name (name a ∷ names_of name assets) l w₂)
                  (ok-injective (record { name = name a; size = n } ∷ rest) listed (rw whole at h))
                  (
                    refl,
                    (content, safe ∙ there, long),
                    download_all-AllStored assets w₁ rest far.1 r,
                  ))
        ]
      ]
