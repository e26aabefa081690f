-- ===== src/Metadata/Write/Assets.antt =====
-- What stands on disk once an asset or an issue is written.
use backup_git_repos.Base.{
  sym, true, zero, suc, append_assoc, list_beq, Text, text, ℕ, ◌+◌, ◌≤◌, ◌<◌, [], ◌∷◌, ◌++◌, none,
  some, false, length, ltb, take, take_all, ◌≡◌, refl, ◌∙◌, ap, subst, arith, inl, inr,
  Option-cases,
}
use backup_git_repos.FilePath.{FilePath, join}
use backup_git_repos.Error.{err, wrap, remove_op, copy_op, release_asset_too_large}
use backup_git_repos.Fs.Update.{get-alter-none}
use backup_git_repos.World.{Env, remove, removable}
use backup_git_repos.Fs.{file, get}
use backup_git_repos.Error.{ok}
use backup_git_repos.Error.Steps.{Result-cases, ok-injective}
use backup_git_repos.World.{World, mkdir_all, write_file}
use backup_git_repos.World.Keeps.{get-write_file, write_file-env}
use backup_git_repos.Metadata.{release_dir, sanitize_name, replace_separator}
use backup_git_repos.Metadata.Names.{join-sanitize_name}
use backup_git_repos.Metadata.Write.{
  Issue, Encoders, present, numbered, write_issue, Body, copied, copy_error, written_error, give_up,
  finish_asset, asset_path, write_release_asset, max_release_asset_size,
}

-- An asset that was read to its end, and its size.
pub record IsWhole (body : Body) (n : ℕ) : Type 0 where
  pub read : body.failure ≡ none
  pub size : n ≡ length body.content
  pub bounded : n ≤ max_release_asset_size

short_le : (max n : ℕ) → ltb max n ≡ false → n < max + 1
short_le max n h = ground arith

-- How long the copy is, if it is not too long.
copied-whole :
    (max : ℕ) (s : Text) → ltb max (length (take (max + 1) s)) ≡ false → take (max + 1) s ≡ s
copied-whole max s h = take_all (max + 1) s (short_le max (length (take (max + 1) s)) h)

finish_asset-IsWhole :
    (path : FilePath) (body : Body) (w : World) (n : ℕ)
    → (finish_asset path body w).0 ≡ ok n
    → IsWhole body n × (copied body ≡ body.content) × ((finish_asset path body w).1 ≡ w)
unfolding finish_asset written_error copy_error copied give_up
finish_asset-IsWhole path body w n h =
    ground (arith, copied-whole max_release_asset_size body.content)

assets_name : sanitize_name (text "assets") ≡ text "assets"
unfolding sanitize_name replace_separator list_beq
assets_name = refl

pub join-assets : (dir : FilePath) → join dir (text "assets") ≡ dir ++ text "assets" ∷ []
join-assets dir =
    subst (λ (s : Text). join dir s ≡ dir ++ s ∷ []) assets_name
      (join-sanitize_name dir (text "assets"))

pub asset_path-eq :
    (dir : FilePath) (tag_name asset_name : Text)
    → asset_path dir tag_name asset_name
      ≡ dir ++ sanitize_name tag_name ∷ text "assets" ∷ sanitize_name asset_name ∷ []
unfolding asset_path release_dir
asset_path-eq dir tag_name asset_name =
    join-sanitize_name (join (join dir (sanitize_name tag_name)) (text "assets")) asset_name
    ∙ ap (λ (p : FilePath). p ++ sanitize_name asset_name ∷ [])
        (join-assets (join dir (sanitize_name tag_name))
          ∙ ap (λ (p : FilePath). p ++ text "assets" ∷ []) (join-sanitize_name dir tag_name))
    ∙ ap (λ (p : FilePath). p ++ sanitize_name asset_name ∷ [])
        (append_assoc dir (sanitize_name tag_name ∷ []) (text "assets" ∷ []))
    ∙ append_assoc dir (sanitize_name tag_name ∷ text "assets" ∷ []) (sanitize_name asset_name ∷ [])

-- Where an asset is written without error, its file holds all that the reader gave, up to the
-- reader's end; the size that is returned is that of the file, and within the maximum. The file
-- stands below the release's directory, whatever the names of the tag and the asset are.
pub write_release_asset-IsWhole :
    (dir : FilePath) (tag_name asset_name : Text) (body : Body) (w : World) (n : ℕ)
    → (write_release_asset dir tag_name asset_name body w).0 ≡ ok n
    → IsWhole body n
      × (get
            (dir ++ sanitize_name tag_name ∷ text "assets" ∷ sanitize_name asset_name ∷ [])
            (write_release_asset dir tag_name asset_name body w).1.fs
          ≡ some (file body.content))
unfolding write_release_asset
write_release_asset-IsWhole dir tag_name asset_name body w n h =
    let path = asset_path dir tag_name asset_name in
    let w₁ = (mkdir_all (join (release_dir dir tag_name) (text "assets")) w).1 in
    let w₂ = (write_file path (copied body) w₁).1 in
    elim (Result-cases (mkdir_all (join (release_dir dir tag_name) (text "assets")) w).0) [
      | inr (e, p) ↦ cc (rw p at h)
      | inl (_, p) ↦ elim (Result-cases (write_file path (copied body) w₁).0) [
        | inr (e, q) ↦ cc (rw (p, q) at h)
        | inl (tt, q) ↦ elim (Result-cases (finish_asset path body w₂).0) [
          | inr (e, r) ↦ cc (rw (p, q, r) at h)
          | inl (k, r) ↦
              let same : k ≡ n = ok-injective k n (rw (p, q, r) at h) in
              let (whole, all, kept) = finish_asset-IsWhole path body w₂ n (r ∙ ap ok same) in
              (
                whole,
                rw (p, q, kept)
                    (subst (λ (f : FilePath). get f w₂.fs ≡ some (file body.content))
                      (asset_path-eq dir tag_name asset_name)
                      (get-write_file path (copied body) w₁ q
                        ∙ ap (λ (s : Text). some (file s)) all)),
              )
        ]
      ]
    ]

-- Where an issue is written without error, the file of its number holds its encoding, in which the
-- comments are a list in any case, and nil is the empty one.
pub write_issue_lem :
    (enc : Encoders) (dir : FilePath) (issue : Issue) (w : World)
    → (write_issue enc dir issue w).0 ≡ ok tt
    → (bytes : Text) × (enc.issue (record issue { comments = present issue.comments }) ≡ some bytes)
      × (get (numbered enc dir issue.number) (write_issue enc dir issue w).1.fs ≡ some (file bytes))
unfolding write_issue
write_issue_lem enc dir issue w h =
    elim (Option-cases (enc.issue (record issue { comments = present issue.comments }))) [
      | inl p ↦ cc (rw p at h)
      | inr (bytes, p) ↦
          elim (Result-cases (write_file (numbered enc dir issue.number) bytes w).0) [
            | inr (e, q) ↦ cc (rw (p, q) at h)
            | inl (tt, q) ↦
                (bytes, p, rw p (get-write_file (numbered enc dir issue.number) bytes w q))
          ]
    ]

remove-file :
    (path : FilePath) (content : Text) (w : World)
    → w.env.refuses remove_op path ≡ false
    → get path w.fs ≡ some (file content)
    → get path (remove path w).1.fs ≡ none
unfolding remove removable
remove-file path content w h k = rw (h, k) (get-alter-none path w.fs)

length-take_of_le : (n : ℕ) (s : Text) → n ≤ length s → length (take n s) ≡ n
unfolding take
length-take_of_le zero s h = refl
length-take_of_le (suc n) [] h = ground arith
length-take_of_le (suc n) (x ∷ s) h = ap suc (length-take_of_le n s (omega arith))

copied-too_long :
    (body : Body)
    → max_release_asset_size < length body.content
    → ltb max_release_asset_size (length (copied body)) ≡ true
unfolding copied
copied-too_long body h =
    ground (arith, length-take_of_le (max_release_asset_size + 1) body.content (omega arith))

too_long :
    (path : FilePath) (body : Body) (w : World)
    → max_release_asset_size < length body.content
    → w.env.refuses copy_op path ≡ false
    → written_error w.env path body ≡ none
unfolding written_error copy_error
too_long path body w h k = ground arith

finish_asset_too_large :
    (path : FilePath) (body : Body) (content : Text) (w : World)
    → max_release_asset_size < length body.content
    → w.env.refuses copy_op path ≡ false
    → w.env.refuses remove_op path ≡ false
    → get path w.fs ≡ some (file content)
    → ((finish_asset path body w).0 ≡ err release_asset_too_large)
      × (get path (finish_asset path body w).1.fs ≡ none)
unfolding finish_asset give_up
finish_asset_too_large path body content w long writes free there = (
  rw (too_long path body w long writes, finish_asset, copied-too_long body long) refl,
  rw (too_long path body w long writes, finish_asset, copied-too_long body long)
      (remove-file path content w free there),
)

-- An asset whose reader gives more bytes than the maximum, once its file was opened and as far as it
-- can be written, is refused as too large, and where the system lets the file be removed, none of it
-- is left behind.
pub write_release_asset_too_large :
    (dir : FilePath) (tag_name asset_name : Text) (body : Body) (w w₁ : World)
    → max_release_asset_size < length body.content
    → mkdir_all (join (release_dir dir tag_name) (text "assets")) w ≡ (ok tt, w₁)
    → w₁.env.refuses copy_op (asset_path dir tag_name asset_name) ≡ false
    → w₁.env.refuses remove_op (asset_path dir tag_name asset_name) ≡ false
    → (write_file (asset_path dir tag_name asset_name) (copied body) w₁).0 ≡ ok tt
    → ((write_release_asset dir tag_name asset_name body w).0
        ≡ err (wrap (text "write release asset") release_asset_too_large))
      × (get
            (asset_path dir tag_name asset_name)
            (write_release_asset dir tag_name asset_name body w).1.fs
          ≡ none)
unfolding write_release_asset
write_release_asset_too_large dir tag_name asset_name body w w₁ long made writes free opened =
    let path = asset_path dir tag_name asset_name in
    let w₂ = (write_file path (copied body) w₁).1 in
    let same : w₁.env ≡ w₂.env = sym (write_file-env path (copied body) w₁) in
    let writes₂ : w₂.env.refuses copy_op path ≡ false =
      subst (λ (env : Env). env.refuses copy_op path ≡ false) same writes in
    let free₂ : w₂.env.refuses remove_op path ≡ false =
      subst (λ (env : Env). env.refuses remove_op path ≡ false) same free in
    let (refused, gone) =
      finish_asset_too_large path body (copied body) w₂ long writes₂ free₂
        (get-write_file path (copied body) w₁ opened) in
    (rw (made, opened, refused) refl, rw (made, opened) gone)
