-- ===== src/Metadata/Write.antt =====
-- internal/backup/metadata.go: the files of issues, releases, pull requests and release assets. The
-- JSON encoder and strconv.Itoa are a parameter. A time is the text that is written of it.
pub mod Assets
pub mod Numbered
pub mod Releases
pub mod Stays
use backup_git_repos.Base.{
  Text, text, ℕ, ◌+◌, List, [], ◌∷◌, ◌++◌, Option, none, some, Bool, true, false, length, ltb, take,
  if◌then◌else◌,
}
use backup_git_repos.FilePath.{FilePath, join}
use backup_git_repos.Error.{
  Err, Result, ok, err, wrap, external, os_error, copy_op, close_op, release_asset_too_large,
}
use backup_git_repos.World.{
  Env, World, Io, pure, fail, wrapping, settle, ◌>>=◌, ◌>>◌, mkdir_all, write_file, remove,
}
use backup_git_repos.Metadata.{sanitize_name, release_dir}

pub record Comment : Type 0 where
  pub author : Text
  pub body : Text
  pub created_at : Text

-- A slice that may be nil is an option.
pub record Issue : Type 0 where
  pub number : ℕ
  pub title : Text
  pub body : Text
  pub author : Text
  pub state : Text
  pub labels : List Text
  pub created_at : Text
  pub updated_at : Text
  pub closed_at : Option Text
  pub comments : Option (List Comment)

pub record ReleaseAsset : Type 0 where
  pub name : Text
  pub size : ℕ

pub record Release : Type 0 where
  pub tag_name : Text
  pub name : Text
  pub body : Text
  pub author : Text
  pub created_at : Text
  pub published_at : Option Text
  pub assets : Option (List ReleaseAsset)

pub record ReviewComment : Type 0 where
  pub author : Text
  pub body : Text
  pub created_at : Text
  pub file : Text
  pub line : ℕ

pub record PullRequest : Type 0 where
  pub number : ℕ
  pub title : Text
  pub body : Text
  pub author : Text
  pub state : Text
  pub source_branch : Text
  pub target_branch : Text
  pub created_at : Text
  pub updated_at : Text
  pub closed_at : Option Text
  pub merged_at : Option Text
  pub comments : Option (List ReviewComment)

-- `json.MarshalIndent` at the three types, and `strconv.Itoa`.
pub record Encoders : Type 0 where
  pub issue : Issue → Option Text
  pub release : Release → Option Text
  pub pull_request : PullRequest → Option Text
  pub itoa : ℕ → Text

-- An empty slice in the place of a nil one.
abbrev pub present {ℓ} : {A : Type ℓ} → Option (List A) → Option (List A)
present none = some []
present (some xs) = some xs

abbrev pub encoded : Option Text → Io Text
encoded none = fail (external (text "json"))
encoded (some bytes) = pure bytes

abbrev pub numbered : Encoders → FilePath → ℕ → FilePath
numbered enc dir number = join dir (enc.itoa number ++ text ".json")

unfoldable pub write_issue : Encoders → FilePath → Issue → Io (Unit {0})
write_issue enc dir issue = wrapping (text "write issue") (do
  bytes ← encoded (enc.issue (record issue { comments = present issue.comments }))
  write_file (numbered enc dir issue.number) bytes)

unfoldable pub write_release : Encoders → FilePath → Release → Io (Unit {0})
write_release enc dir release = wrapping (text "write release") (do
  bytes ← encoded (enc.release (record release { assets = present release.assets }))
  mkdir_all (release_dir dir release.tag_name)
  write_file (join (release_dir dir release.tag_name) (text "release.json")) bytes)

unfoldable pub write_pull_request : Encoders → FilePath → PullRequest → Io (Unit {0})
write_pull_request enc dir pr = wrapping (text "write pull request") (do
  bytes ← encoded (enc.pull_request (record pr { comments = present pr.comments }))
  write_file (numbered enc dir pr.number) bytes)

-- `MaxReleaseAssetSize`
unfoldable pub max_release_asset_size : ℕ
max_release_asset_size = 4294967296

-- What a reader gives: its bytes, and then its end or an error.
pub record Body : Type 0 where
  pub content : Text
  pub failure : Option Err

-- `io.Copy` from a reader that is cut off one byte above the maximum.
unfoldable pub copied : Body → Text
copied body = take (max_release_asset_size + 1) body.content

unfoldable pub copy_error : Body → Option Err
copy_error body = if ltb max_release_asset_size (length body.content) then none else body.failure

unfoldable pub written_error : Env → FilePath → Body → Option Err
written_error env path body =
    if env.refuses copy_op path then some (os_error copy_op path) else copy_error body

-- The partial file is removed, whether or not that succeeds.
unfoldable pub give_up : FilePath → Err → Io ℕ
give_up path e w = (err e, (remove path w).1)

-- What follows the opening of the file. A write that `io.Copy` cannot do ends it like a read.
unfoldable pub finish_asset : FilePath → Body → Io ℕ
finish_asset path body w = elim (written_error w.env path body) [
  | some e ↦ give_up path e w
  | none ↦
      if ltb max_release_asset_size (length (copied body))
      then give_up path release_asset_too_large w
      else if w.env.refuses close_op path
      then (err (os_error close_op path), w)
      else (ok (length (copied body)), w)
]

unfoldable pub asset_path : FilePath → Text → Text → FilePath
asset_path dir tag_name asset_name =
    join (join (release_dir dir tag_name) (text "assets")) (sanitize_name asset_name)

unfoldable pub write_release_asset : FilePath → Text → Text → Body → Io ℕ
write_release_asset dir tag_name asset_name body = wrapping (text "write release asset") (do
  mkdir_all (join (release_dir dir tag_name) (text "assets"))
  write_file (asset_path dir tag_name asset_name) (copied body)
  finish_asset (asset_path dir tag_name asset_name) body)
