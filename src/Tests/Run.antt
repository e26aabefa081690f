-- ===== src/Tests/Run.antt =====
-- Tests of internal/backup/run.go, and its theorems at the sample data.
use backup_git_repos.Base.{Text, text, List, [], ◌∷◌, ◌≡◌, refl, nat_eq, list_eq}
use backup_git_repos.Base.{
  sort, contains, cut_suffix, join_with, split_on, list_beq, insert_text, text_leb, count_if,
  push_first,
}
use backup_git_repos.FilePath.{join, walk_parts, enter, out_of, base, dir_of, with_suffix}
use backup_git_repos.Fs.{get, alter, find, set_entry, put_entry, remove_entry, make_dirs, within}
use backup_git_repos.Error.{Result, ok, is_not_exist}
use backup_git_repos.World
use backup_git_repos.World.{World, warn}
use backup_git_repos.Archive
use backup_git_repos.Repo.{Repo, wants}
use backup_git_repos.Run.Types.{RunResult, mirror_path, archive_path}
use backup_git_repos.Run.Scan
use backup_git_repos.Run.Scan.{stale_mirrors, on_disk_paths, is_mirror_dir, is_archive_file}
use backup_git_repos.Run.Worker
use backup_git_repos.Run.Loop
use backup_git_repos.Run.Loop.{run, mirror_all, prune}
use backup_git_repos.Run.Accounts.{Accounts, run-Accounts}
use backup_git_repos.Run.Stale.{IsStale, stale_mirrors-IsStale}
use backup_git_repos.Run.Paths.{IsRepoPath}
use backup_git_repos.Run.Prune.{prune-keeps-listed, count-prune}
use backup_git_repos.Fs.Update.{at_or_above}
use backup_git_repos.Tests.{sample_world, sample_runner, sample_options, sample_repos}

stale_now : Result (List Text)
unfolding stale_mirrors on_disk_paths is_mirror_dir is_archive_file Scan.keep_stale Scan.walk_root
    Scan.on_disk Scan.matches Scan.has_suffix Scan.trim_suffix World.stat World.missing
    World.blocked is_not_exist get find cut_suffix join_with sort insert_text text_leb contains
    list_beq
stale_now = stale_mirrors sample_options.dest sample_options.archive_dir sample_repos sample_world

stale_sample : stale_now ≡ ok (text "gone" ∷ [])
unfolding stale_now
stale_sample = refl

unfoldable pub run_now : Result RunResult × World
unfolding stale_now run Loop.run_listed mirror_all Loop.run_repo Loop.skip_repo Loop.report_done
    Loop.add_outcome prune Loop.prune_one Loop.prune_archive Loop.list_repos Loop.full_listing
    Worker.mirror_repo Worker.mirror_into Worker.mirror_scratch Worker.export_metadata
    Worker.export_all Worker.export_one Worker.archive_mirror Archive.archive_repo Archive.archive
    Archive.write_archive Archive.open_root Archive.sorted_paths Archive.walk_paths
    Archive.write_entries Archive.write_entry Archive.unreadable Archive.entry_of Archive.header_for
    Archive.prefix_entry Archive.close_archive World.mkdir_all World.mkdir_temp World.has_dir
    World.remove_all World.remove World.removable World.write_file World.writable World.rename
    World.replaces World.log_line alter set_entry put_entry remove_entry make_dirs within
    mirror_path archive_path wants join walk_parts enter out_of base dir_of with_suffix split_on
    push_first
run_now = run sample_runner sample_options sample_world

abbrev pub expected : RunResult
expected = record {
  synced = 2;
  skipped = 1;
  failed = 0;
  archived = 1;
  pruned = 1;
  metadata_exported = 0;
}

pub run_sample : run_now.0 ≡ ok expected
unfolding run_now
run_sample = refl

run-Accounts_example :
    (repos : List Repo) × ((sample_runner.list_repos sample_options.state sample_world).0
      ≡ ok repos)
    × Accounts sample_runner sample_options repos expected
unfolding run_now
run-Accounts_example = run-Accounts sample_runner sample_options sample_world expected run_sample

stale_mirrors-IsStale_example :
    (mirrors : List Text) × (archives : List Text) × (on_disk_paths sample_options.dest
        (text ".git")
        is_mirror_dir
        sample_world
      ≡ ok mirrors)
    × (on_disk_paths sample_options.archive_dir (text ".tar.gz") is_archive_file sample_world
        ≡ ok archives)
    × IsStale mirrors archives sample_repos (text "gone" ∷ [])
unfolding stale_now
stale_mirrors-IsStale_example =
    stale_mirrors-IsStale sample_options.dest sample_options.archive_dir sample_repos sample_world
      (text "gone" ∷ []) stale_sample

IsRepoPath-x : IsRepoPath (text "x")
unfolding split_on
IsRepoPath-x = record { names = tt; no_git = tt }

IsRepoPath-gone : IsRepoPath (text "gone")
unfolding split_on push_first
IsRepoPath-gone = record { names = tt; no_git = tt }

prune-keeps-listed_example :
    get
      (mirror_path sample_options.dest (text "x"))
      (prune sample_options (text "gone" ∷ []) sample_world).1.fs
    ≡ get (mirror_path sample_options.dest (text "x")) sample_world.fs
unfolding at_or_above list_beq contains
prune-keeps-listed_example =
    prune-keeps-listed sample_options (text "x") (text "gone" ∷ []) sample_world (refl, refl)
      IsRepoPath-x (IsRepoPath-gone, tt) refl

count-prune_example : (prune sample_options (text "gone" ∷ []) sample_world).0 ≡ 1
unfolding count_if
count-prune_example = count-prune sample_options (text "gone" ∷ []) sample_world refl
