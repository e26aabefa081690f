-- ===== src/Tests/Cli.antt =====
-- The theorems on the commands at sample data.
use backup_git_repos.Base.{
  Text, text, List, [], ◌∷◌, ◌≡◌, refl, sym, subst, false, true, list_beq, has_prefix, split_on,
  push_first,
}
use backup_git_repos.FilePath.{FilePath, join, walk_parts, enter, dir_of}
use backup_git_repos.Fs.{
  file, get, alter, find, set_entry, put_entry, remove_entry, make_dirs, within,
}
use backup_git_repos.Error.{Result, ok, err, is_not_exist}
use backup_git_repos.Error.{Err, external, wrap}
use backup_git_repos.Base.{◌⊎◌}
use backup_git_repos.Run.Loop
use backup_git_repos.Run.Failure.{run_failed}
use backup_git_repos.Run.Types.{mirror_path, Runner}
use backup_git_repos.Mirror.{refresh, clone, update}
use backup_git_repos.Cli.{run_forges, is_selected}
use backup_git_repos.Cli.Forge.{run_forge}
use backup_git_repos.Cli.Forges.{run_forges_stop}
use backup_git_repos.Cli.DryRun.{dry_run_action}
use backup_git_repos.Cli.DryRun.Action.{dry_run_action-refresh}
use backup_git_repos.Tests.Mirror.{failing_tools, remote_x}
use backup_git_repos.Config.{ForgeConfig}
use backup_git_repos.Tests.Config.{forge_odd}
use backup_git_repos.World
use backup_git_repos.World.{World, pure}
use backup_git_repos.Repo.{Repo, state_all}
use backup_git_repos.Run.Loop.{run}
use backup_git_repos.Run.Types.{Options}
use backup_git_repos.Cli.Paths
use backup_git_repos.Cli.Paths.{CliFlags, config_init_path}
use backup_git_repos.Cli.Init
use backup_git_repos.Cli.Init.{run_config_init, example_config}
use backup_git_repos.Cli.DryRun.{DryRunConfig, preview_all, no_preview}
use backup_git_repos.Cli.DryRun.Predicts.{preview_all-IsForecast, IsForecast}
use backup_git_repos.Cli.Forge.{Selection, run_options, dry_run_config}
use backup_git_repos.Tests.{sample_env, sample_world, sample_fs, sample_runner, sample_options}
use backup_git_repos.Tests.Config.{forge_raw}
use backup_git_repos.Tests.Run.{run_now, run_sample, expected}

abbrev flags_at : Text → CliFlags
flags_at config = record {
  config = config;
  dest = [];
  forges = [];
  state = [];
  archive = [];
  archive_dir = [];
  export_metadata = [];
  concurrency = 0;
  dry_run = false;
  prune_removed = true;
  verbose = false;
  timeout = 0;
}

head_path :
    config_init_path (flags_at (text "/b/f/x.git/HEAD")) sample_env
    ≡ ok (text "b" ∷ text "f" ∷ text "x.git" ∷ text "HEAD" ∷ [])
unfolding config_init_path Paths.expand_home Paths.place has_prefix list_beq join walk_parts enter
    split_on push_first
head_path = refl

head_there :
    (World.stat (text "b" ∷ text "f" ∷ text "x.git" ∷ text "HEAD" ∷ []) sample_world).0
    ≡ ok (file (text "ref"))
unfolding World.stat get find list_beq
head_there = refl

abbrev new_path : FilePath
new_path = text "home" ∷ text "c" ∷ text "x.yaml" ∷ []

home_path : config_init_path (flags_at (text "~/c/x.yaml")) sample_env ≡ ok new_path
unfolding config_init_path Paths.expand_home Paths.place Paths.drop_two has_prefix list_beq join
    walk_parts enter split_on push_first
home_path = refl

init_now : Result (Unit {0}) × World
unfolding run_config_init Init.may_write Init.write_config World.stat World.missing World.blocked
    is_not_exist World.mkdir_all World.write_file World.writable make_dirs within get find alter
    set_entry put_entry remove_entry list_beq dir_of config_init_path Paths.expand_home Paths.place
    Paths.drop_two has_prefix join walk_parts enter split_on push_first
init_now = run_config_init (flags_at (text "~/c/x.yaml")) false sample_world

init_succeeds : init_now.0 ≡ ok tt
unfolding init_now
init_succeeds = refl

abbrev sample_preview : DryRunConfig
sample_preview = record {
  dest = text "b" ∷ [];
  archive_dir = text "b" ∷ text "archive" ∷ [];
  state = state_all;
  archive = sample_options.archive;
  prune_removed = true;
}

abbrev sample_selection : Selection
sample_selection = record {
  dest = text "b" ∷ [];
  archive_dir = text "b" ∷ text "archive" ∷ [];
  state = state_all;
  archive = sample_options.archive;
  kinds = sample_options.export_metadata;
}

same_options : run_options sample_selection (flags_at []) (text "f") ≡ sample_options
unfolding run_options join walk_parts enter split_on push_first list_beq
same_options = refl

run_selected :
    (run sample_runner (run_options sample_selection (flags_at []) (text "f")) sample_world).0
    ≡ ok expected
unfolding run_now
run_selected =
    subst (λ (o : Options). (run sample_runner o sample_world).0 ≡ ok expected) (sym same_options)
      run_sample

preview_all-IsForecast_example :
    (repos : List Repo) × ((sample_runner.list_repos state_all sample_world).0 ≡ ok repos)
    × IsForecast
        (preview_all
          (dry_run_config sample_selection (flags_at []))
          (text "f")
          repos
          (no_preview, sample_world)).0
        expected
preview_all-IsForecast_example =
    preview_all-IsForecast sample_runner sample_selection (flags_at []) (text "f") sample_world
      sample_world expected run_selected

abbrev http_error : Err
http_error = external (text "http")

-- The same disk with a listing that fails.
abbrev silent_runner : Runner
silent_runner = record sample_runner { list_repos = λ state w. (err http_error, w) }

silent_fails :
    (run silent_runner sample_options sample_world).0 ≡ err (wrap (text "run") http_error)
unfolding run Loop.list_repos
silent_fails = refl

run_failed_example : (run silent_runner sample_options sample_world).1.fs ≡ sample_fs
run_failed_example =
    run_failed silent_runner (λ state w. refl) sample_options sample_world
      (wrap (text "run") http_error) silent_fails

abbrev no_runner : ForgeConfig → Result Runner
no_runner fc = err http_error

run_forges_stop_example :
    run_forges no_runner sample_selection
      (flags_at [])
      false
      (forge_raw ∷ forge_odd ∷ [])
      sample_world
    ≡ (err http_error, sample_world)
unfolding run_forge run_forges is_selected list_beq
run_forges_stop_example =
    run_forges_stop no_runner sample_selection (flags_at []) false [] (forge_odd ∷ []) forge_raw
      sample_world sample_world sample_world http_error refl refl refl

abbrev cloned_x : Text → Repo
cloned_x path = record { path = path; archived = false; empty = false }

dry_run_action-refresh_example :
    ((dry_run_action (text "b" ∷ []) (text "f") (cloned_x (text "x")) false sample_world
        ≡ text "update")
      × (refresh failing_tools remote_x
            (mirror_path (join (text "b" ∷ []) (text "f")) (text "x"))
            sample_world
          ≡ update failing_tools remote_x
              (mirror_path (join (text "b" ∷ []) (text "f")) (text "x"))
              sample_world))
    ⊎ ((dry_run_action (text "b" ∷ []) (text "f") (cloned_x (text "x")) false sample_world
          ≡ text "clone")
        × (refresh failing_tools remote_x
              (mirror_path (join (text "b" ∷ []) (text "f")) (text "x"))
              sample_world
            ≡ clone failing_tools remote_x
                (mirror_path (join (text "b" ∷ []) (text "f")) (text "x"))
                sample_world))
dry_run_action-refresh_example =
    dry_run_action-refresh failing_tools remote_x (text "b" ∷ []) (text "f") (cloned_x (text "x"))
      false sample_world refl
