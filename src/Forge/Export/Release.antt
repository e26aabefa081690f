-- ===== src/Forge/Export/Release.antt =====
-- The export of one release, on disk: its assets, and then its release.json.
use backup_git_repos.Base.{Text, text, ℕ, List, [], ◌∷◌, ◌≡◌, some, All, inl, inr}
use backup_git_repos.FilePath.{FilePath}
use backup_git_repos.Fs.{file, get}
use backup_git_repos.Error.{Err, ok, err}
use backup_git_repos.Error.Steps.{Result-cases}
use backup_git_repos.World.{World, Io, wrapping, ◌>>=◌}
use backup_git_repos.World.Keeps.{wrap_result-eq-ok}
use backup_git_repos.Metadata.Write.{Encoders, Release, ReleaseAsset, write_release}
use backup_git_repos.Metadata.Write.Releases.{
  Untouched, json_path, json-Untouched, write_release_lem, write_release-keeps,
}
use backup_git_repos.Forge.Export.{download_all}
use backup_git_repos.Forge.Export.Assets.{
  IsStored, AllStored, AllStored-moved, TwoFiles, names_of, download_all-keeps,
  download_all-AllStored,
}
use backup_git_repos.Forge.Export.Lands.{Pairwise}

-- A release as it is exported, with what was downloaded of it.
abbrev pub listing : Release → List ReleaseAsset → Release
listing release listed = record release { assets = some listed }

-- A release.json that lists just what stands on disk.
abbrev pub IsWhole : Encoders → FilePath → Release → List Text → World → Type 0
IsWhole enc dir release names w =
    (listed : List ReleaseAsset) × (bytes : Text) × (enc.release (listing release listed)
      ≡ some bytes)
    × (get (json_path dir release.tag_name) w.fs ≡ some (file bytes))
    × AllStored dir release.tag_name names listed w

module _ {A : Type 0} (name : A → Text) (dir : FilePath) (release : Release) (download : A → Io ℕ)
    (stores : (a : A) (w : World) (n : ℕ)
      → (download a w).0 ≡ ok n
      → IsStored dir release.tag_name (name a) n (download a w).1)
    (keeps : (a : A) (q : FilePath) (w : World)
      → Untouched dir release.tag_name (name a) q
      → get q (download a w).1.fs ≡ get q w.fs)
    (enc : Encoders) (assets : List A) where
  abbrev pub exported : Io (Unit {0})
  exported = do
    listed ← download_all name download assets
    wrapping (text "write release") (write_release enc dir (listing release listed))

  pub exported-IsWhole :
      (w : World)
      → Pairwise TwoFiles (names_of name assets)
      → (exported w).0 ≡ ok tt
      → IsWhole enc dir release (names_of name assets) (exported w).1
  exported-IsWhole w far h =
      let w₁ = (download_all name download assets w).1 in
      elim (Result-cases (download_all name download assets w).0) [
        | inr (e, p) ↦ cc (rw p at h)
        | inl (listed, p) ↦
            let full = listing release listed in
            let stored =
              download_all-AllStored name dir release.tag_name download stores keeps assets w listed
                far p in
            let (bytes, encoding, there) = write_release_lem enc dir full w₁ (
              wrap_result-eq-ok (text "write release") (write_release enc dir full w₁).0 tt
                (rw p at h)) in
            (
              listed,
              bytes,
              encoding,
              rw p there,
              rw p (
                  AllStored-moved dir release.tag_name (names_of name assets) listed w₁
                    (write_release enc dir full w₁).1 (write_release-keeps enc dir full w₁) stored),
            )
      ]

  every_json-Untouched :
      (items : List A)
      → All
          (λ (a : A). Untouched dir release.tag_name (name a) (json_path dir release.tag_name))
          items
  every_json-Untouched [] = tt
  every_json-Untouched (a ∷ items) =
      (json-Untouched dir release.tag_name (name a), every_json-Untouched items)

  pub exported_failed :
      (w : World) (e : Err)
      → (download_all name download assets w).0 ≡ err e
      → get (json_path dir release.tag_name) (exported w).1.fs
        ≡ get (json_path dir release.tag_name) w.fs
  exported_failed w e h = rw h (
      download_all-keeps name dir release.tag_name download stores keeps assets
        (json_path dir release.tag_name) w (every_json-Untouched assets))
