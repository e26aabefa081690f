-- ===== src/Tests/Metadata.antt =====
-- The theorems on the files of metadata, at a disk with one directory.
use backup_git_repos.Base.{
  zero, suc, ◌+◌, length, ◌<◌, arith, Text, text, ℕ, take, [], ◌∷◌, ◌++◌, ◌≡◌, refl, none, some,
  list_beq, split_on, push_first,
}
use backup_git_repos.FilePath.{FilePath, join, walk_parts, enter, out_of, dir_of}
use backup_git_repos.Fs.{
  file, get, alter, find, set_entry, put_entry, remove_entry, make_dirs, within,
}
use backup_git_repos.Error.{Result, ok}
use backup_git_repos.Error.{err, wrap, release_asset_too_large}
use backup_git_repos.World
use backup_git_repos.World.{World}
use backup_git_repos.Metadata.{release_dir, sanitize_name, replace_separator}
use backup_git_repos.Metadata.Write
use backup_git_repos.Metadata.Write.{Issue, Encoders, Body, write_issue, write_release_asset}
use backup_git_repos.Metadata.Write.Assets.{
  IsWhole, write_release_asset_too_large, write_release_asset-IsWhole,
}
use backup_git_repos.Tests.{sample_world}

abbrev notes : FilePath
notes = text "b" ∷ text "f" ∷ []

abbrev sample_body : Body
sample_body = record { content = text "bits"; failure = none }

asset_now : Result ℕ × World
unfolding write_release_asset Write.asset_path Write.finish_asset Write.written_error Write.copied
    Write.copy_error Write.max_release_asset_size release_dir sanitize_name replace_separator take
    World.mkdir_all World.write_file World.writable make_dirs within get find alter set_entry
    put_entry remove_entry list_beq dir_of join walk_parts enter out_of split_on push_first
asset_now = write_release_asset notes (text "../v1") (text "a/b") sample_body sample_world

asset_written : asset_now.0 ≡ ok 4
unfolding asset_now
asset_written = refl

write_release_asset-IsWhole_example :
    IsWhole sample_body 4
    × (get (notes ++ text "..-v1" ∷ text "assets" ∷ text "a-b" ∷ []) asset_now.1.fs
        ≡ some (file (text "bits")))
unfolding asset_now
write_release_asset-IsWhole_example =
    write_release_asset-IsWhole notes (text "../v1") (text "a/b") sample_body sample_world 4
      asset_written

-- Two tags that differ in a separator share a directory.
shared_release_dir : release_dir notes (text "a/b") ≡ release_dir notes (text "a-b")
unfolding release_dir sanitize_name replace_separator list_beq
shared_release_dir = refl

abbrev pub sample_encoders : Encoders
sample_encoders = record {
  issue = λ issue. some issue.title;
  release = λ release. none;
  pull_request = λ pr. none;
  itoa = λ n. n ∷ [];
}

unfoldable repeat : ℕ → Text
repeat zero = []
repeat (suc n) = 0 ∷ repeat n

length-repeat : (n : ℕ) → length (repeat n) ≡ n
unfolding repeat
length-repeat zero = refl
length-repeat (suc n) = omega (arith, length-repeat n)

-- One byte more than the maximum.
huge_body : Body
unfolding Write.copied
huge_body = record { content = repeat (Write.max_release_asset_size + 1); failure = none }

huge-too_long : Write.max_release_asset_size < length huge_body.content
unfolding huge_body
huge-too_long = omega (arith, length-repeat (Write.max_release_asset_size + 1))

asset_dir : FilePath
unfolding release_dir sanitize_name replace_separator join walk_parts enter out_of split_on
    push_first list_beq
asset_dir = join (release_dir notes (text "v1")) (text "assets")

made_world : World
unfolding asset_dir World.mkdir_all make_dirs within get find alter set_entry put_entry remove_entry
made_world = (World.mkdir_all asset_dir sample_world).1

made :
    World.mkdir_all (join (release_dir notes (text "v1")) (text "assets")) sample_world
    ≡ (ok tt, made_world)
unfolding made_world
made = refl

opened :
    (World.write_file
      (Write.asset_path notes (text "v1") (text "big"))
      (Write.copied huge_body)
      made_world).0
    ≡ ok tt
unfolding made_world Write.asset_path World.write_file World.writable dir_of
opened = refl

write_release_asset_too_large_example :
    ((write_release_asset notes (text "v1") (text "big") huge_body sample_world).0
      ≡ err (wrap (text "write release asset") release_asset_too_large))
    × (get
          (Write.asset_path notes (text "v1") (text "big"))
          (write_release_asset notes (text "v1") (text "big") huge_body sample_world).1.fs
        ≡ none)
unfolding made_world
write_release_asset_too_large_example =
    write_release_asset_too_large notes (text "v1") (text "big") huge_body sample_world made_world
      huge-too_long made refl refl opened
