-- ===== src/Tests/Archive.antt =====
-- The theorems on archives, at a mirror of two files.
use backup_git_repos.Base.{
  none, Text, text, List, [], ◌∷◌, ◌++◌, ◌≡◌, refl, Bool, true, false, some, list_beq, split_on,
  push_first, join_with, sort, insert_text, text_leb,
}
use backup_git_repos.FilePath.{FilePath, base, dir_of, with_suffix}
use backup_git_repos.Fs.{
  file, dir, Entries, end, entry, Fs, get, find, alter, set_entry, put_entry, remove_entry,
}
use backup_git_repos.Tar.{TarEntry}
use backup_git_repos.Error.{Op, Err, Result, ok, err, wrap, rename_op, os_error}
use backup_git_repos.World
use backup_git_repos.World.{World, Env}
use backup_git_repos.Archive
use backup_git_repos.Archive.{archive}
use backup_git_repos.Archive.Atomic.{archive_failed}
use backup_git_repos.Archive.Deterministic.{archive-same}
use backup_git_repos.Archive.Same.{swap}
use backup_git_repos.Tests.{sample_env}

-- An encoding that keeps the names and the contents.
abbrev joined : List TarEntry → Text
joined [] = []
joined (e ∷ entries) = e.header.name ++ (e.content ++ joined entries)

abbrev mirror : FilePath
mirror = text "x.git" ∷ []

abbrev out : FilePath
out = text "x.tar.gz" ∷ []

abbrev head_first : Entries
head_first =
    entry (text "HEAD") (file (text "ref")) (entry (text "config") (file (text "bare")) end)

abbrev config_first : Entries
config_first =
    entry (text "config") (file (text "bare")) (entry (text "HEAD") (file (text "ref")) end)

-- A mirror beside the archive of an earlier run.
abbrev at : Entries → Fs
at es = some (dir (entry (text "x.git") (dir es) (entry (text "x.tar.gz") (file (text "old")) end)))

abbrev first_world : World
first_world = record {
  env = record sample_env { encode = joined };
  fs = at head_first;
  log = [];
  out = [];
}

abbrev later_world : World
later_world = record {
  env = record sample_env {
    encode = joined;
    file_info = λ path. record {
      mode = 420;
      mod_time = 99;
      access_time = none;
      change_time = some 100;
      uid = 5;
      gid = 5;
      uname = [];
      gname = [];
    };
  };
  fs = at config_first;
  log = [];
  out = [];
}

run_archive : World → Result (Unit {0}) × World
unfolding archive Archive.write_archive Archive.open_root Archive.sorted_paths Archive.walk_paths
    Archive.write_entries Archive.write_entry Archive.unreadable Archive.entry_of Archive.header_for
    Archive.prefix_entry Archive.close_archive World.remove World.removable World.write_file
    World.writable World.rename World.replaces World.has_dir get find alter set_entry put_entry
    remove_entry base dir_of with_suffix split_on push_first join_with sort insert_text text_leb
    list_beq
run_archive w = archive mirror out w

first_written : (run_archive first_world).0 ≡ ok tt
unfolding run_archive
first_written = refl

later_written : (run_archive later_world).0 ≡ ok tt
unfolding run_archive
later_written = refl

archived_sample :
    get out (run_archive first_world).1.fs
    ≡ some (file (text "x.git/x.git/HEADrefx.git/configbare"))
unfolding run_archive
archived_sample = refl

archive-same_example :
    get out (run_archive first_world).1.fs ≡ get out (run_archive later_world).1.fs
unfolding run_archive
archive-same_example =
    archive-same mirror out out first_world later_world head_first config_first (λ e. cc e)
      (λ e. cc e) (λ entries. refl) (λ path. refl) refl refl
      (swap (text "HEAD") (text "config") (λ e. cc e)) first_written later_written

abbrev is_rename : Op → Bool
is_rename rename_op = true
is_rename op = false

-- A disk on which nothing can be renamed.
abbrev stuck_world : World
stuck_world = record first_world { env = record sample_env { refuses = λ op path. is_rename op } }

abbrev stuck_error : Err
stuck_error = wrap (text "archive") (os_error rename_op out)

stuck_failed : (run_archive stuck_world).0 ≡ err stuck_error
unfolding run_archive
stuck_failed = refl

archive_failed_example : get out (run_archive stuck_world).1.fs ≡ some (file (text "old"))
unfolding run_archive get find
archive_failed_example = archive_failed mirror out stuck_world (λ e. cc e) stuck_error stuck_failed
