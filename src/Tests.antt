-- ===== src/Tests.antt =====
-- The sample data that the tests and the instances of the theorems share: a forge of three
-- repositories, and a disk with the mirror of one of them and of one that is gone.
mod Archive
mod Run
mod Schedule
mod Config
mod Mirror
mod Forge
mod Export
mod Linked
mod Cli
mod Flags
mod Main
mod Outside
mod Metadata
mod Uploads
use backup_git_repos.Base.{
  Text, text, ℕ, List, [], ◌∷◌, ◌++◌, Bool, true, false, none, some, Option,
}
use backup_git_repos.FilePath.{FilePath}
use backup_git_repos.Fs.{Node, file, dir, Entries, end, entry, Fs}
use backup_git_repos.Error.{Op, Result, ok, err}
use backup_git_repos.World.{Env, World, Io, mkdir_all}
use backup_git_repos.Repo.{
  Repo, State, state_all, state_active, state_archived, ArchiveSelection, archive_archived,
}
use backup_git_repos.Metadata.{issues}
use backup_git_repos.Run.Types.{Runner, Remote, Options}

abbrev pub sample_env : Env
sample_env = record {
  refuses = λ op path. false;
  temp_name = text "b" ∷ text "scratch" ∷ [];
  home = some (text "home" ∷ []);
  config_home = some (text "home" ∷ text ".config" ∷ []);
  variables = [];
  file_info = λ path. record {
    mode = 420;
    mod_time = 7;
    access_time = some 8;
    change_time = some 9;
    uid = 1;
    gid = 1;
    uname = [];
    gname = [];
  };
  encode = λ entries. text "tar";
  working_dir = [];
  shell = λ command. some (text "secret");
  look_path = λ name. some (name ∷ []);
  processors = 4;
}

abbrev pub mirror_dir : Node
mirror_dir = dir (entry (text "HEAD") (file (text "ref")) end)

-- /b/f/x.git and /b/f/gone.git
abbrev pub sample_fs : Fs
sample_fs = some (
    dir (
      entry (text "b")
        (dir (
          entry (text "f")
            (dir (entry (text "x.git") mirror_dir (entry (text "gone.git") mirror_dir end))) end))
        end))

abbrev pub sample_world : World
sample_world = record { env = sample_env; fs = sample_fs; log = []; out = [] }

abbrev pub repo_x : Repo
repo_x = record { path = text "x"; archived = false; empty = false }

abbrev pub repo_old : Repo
repo_old = record { path = text "n/old"; archived = true; empty = false }

abbrev pub repo_none : Repo
repo_none = record { path = text "n/none"; archived = false; empty = true }

abbrev pub sample_repos : List Repo
sample_repos = repo_x ∷ repo_old ∷ repo_none ∷ []

-- A forge that lists the same repositories always and whose clones are empty directories.
abbrev pub sample_runner : Runner
sample_runner = record {
  list_repos = λ state w. (ok sample_repos, w);
  sync = λ remote dir. mkdir_all dir;
  remote = λ repo. record { clone_url = repo.path; auth_header = [] };
  exporters = [];
}

abbrev pub sample_options : Options
sample_options = record {
  dest = text "b" ∷ text "f" ∷ [];
  state = state_all;
  archive = archive_archived;
  archive_dir = text "b" ∷ text "archive" ∷ text "f" ∷ [];
  concurrency = 0;
  prune_removed = true;
  export_metadata = issues ∷ [];
}
