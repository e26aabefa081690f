-- ===== src/Tests/Flags.antt =====
-- Tests of the flags and of the progress line of the command, and its theorems at sample data.
use backup_git_repos.Base.{
  Text, text, List, [], ◌∷◌, ◌≡◌, refl, true, false, Option, none, some, ◌==◌, nat_eq, list_eq,
  list_beq, has_prefix, split_on, push_first, if◌then◌else◌,
}
use backup_git_repos.FilePath.{FilePath, join, walk_parts, enter}
use backup_git_repos.Error.{ok}
use backup_git_repos.World.{World, Env, debug, error}
use backup_git_repos.Cli.Logger.{written, rank, lowest_level}
use backup_git_repos.Cli.{resolve_config_path}
use backup_git_repos.Cli.Paths
use backup_git_repos.Cli.Paths.{CliFlags}
use backup_git_repos.Cli.Init.{Console}
use backup_git_repos.Cli.Flags.{Flag, Viper, bind_flags, build_viper, resolved_flags, underscores}
use backup_git_repos.Cli.Flags.Merged.{
  Settings, Documented, effective, variable, upper, IsMerged, resolved_flags-IsMerged,
}
use backup_git_repos.Tests.{sample_env, sample_world}

abbrev answer : Option Text → Text
answer none = []
answer (some s) = s

abbrev answers : Option Text → List Text
answers none = []
answers (some s) = s ∷ []

abbrev sample_settings : Settings Text
sample_settings = record {
  prefix = [];
  replace = λ s. s;
  automatic = false;
  flags = λ name. none;
  file = [];
  config = λ key. none;
}

-- A file that sets `archive` and `archive-dir`.
abbrev sample_contents : World → FilePath → Text → Option Text
sample_contents w path key =
    if key == text "archive"
    then some (text "all")
    else if key == text "archive-dir"
    then some (text "/file")
    else none

abbrev read_text : Settings Text → Env → Text → Option Text
read_text v env key = effective (λ s. s) v env key

abbrev pub sample_viper : Viper
sample_viper = record {
  Store = Settings Text;
  new = sample_settings;
  set_env_prefix = λ p v. record v { prefix = p };
  set_env_key_replacer = λ r v. record v { replace = r };
  automatic_env = λ v. record v { automatic = true };
  bind_pflag = λ name f v. record v { flags = λ key. if name == key then some f else v.flags key };
  set_config_file = λ path v. record v { file = path };
  read_in_config = λ w v. record v { config = sample_contents w v.file };
  get_string = λ v env key. answer (read_text v env key);
  get_string_slice = λ v env key. answers (read_text v env key);
  get_int = λ v env key. 0;
  get_duration = λ v env key. 0;
  get_bool = λ v env key. answer (read_text v env key) == text "true";
}

sample_documented : Documented sample_viper
sample_documented = record {
  Value = Text;
  of_text = λ s. s;
  settings = λ v. v;
  contents = sample_contents;
  to_string = answer;
  to_slice = answers;
  to_int = λ o. 0;
  to_duration = λ o. 0;
  to_bool = λ o. answer o == text "true";
  new = refl;
  set_env_prefix = λ p v. refl;
  set_env_key_replacer = λ r v. refl;
  automatic_env = λ v. refl;
  bind_pflag = λ name f v. refl;
  set_config_file = λ path v. refl;
  read_in_config = λ w v. refl;
  get_string = λ v env key. refl;
  get_string_slice = λ v env key. refl;
  get_int = λ v env key. refl;
  get_duration = λ v env key. refl;
  get_bool = λ v env key. refl;
}

-- `run --dry-run --dest /flag`, with the other flags at their defaults.
abbrev pub sample_flags : List Flag
sample_flags =
    record { name = text "dry-run"; value = text "true"; changed = true }
    ∷ record { name = text "dest"; value = text "/flag"; changed = true }
    ∷ record { name = text "state"; value = text "all"; changed = false }
    ∷ record { name = text "archive-dir"; value = []; changed = false }
    ∷ record { name = text "archive"; value = text "none"; changed = false }
    ∷ []

-- BACKUP_GIT_REPOS_DEST loses to the flag, BACKUP_GIT_REPOS_ARCHIVE_DIR wins over the file.
abbrev sample_variables : Env
sample_variables = record sample_env {
  variables =
      (text "BACKUP_GIT_REPOS_DEST", text "/variable")
      ∷ (text "BACKUP_GIT_REPOS_ARCHIVE_DIR", text "/archives")
      ∷ [];
}

flags_now : CliFlags
unfolding resolved_flags build_viper bind_flags underscores upper variable list_beq
flags_now =
    resolved_flags sample_viper (build_viper sample_viper sample_flags [] sample_world)
      sample_variables

dest_now : flags_now.dest ≡ text "/flag"
unfolding flags_now
dest_now = refl

archive_dir_now : flags_now.archive_dir ≡ text "/archives"
unfolding flags_now
archive_dir_now = refl

archive_now : flags_now.archive ≡ text "all"
unfolding flags_now
archive_now = refl

state_now : flags_now.state ≡ text "all"
unfolding flags_now
state_now = refl

resolved_flags-IsMerged_example :
    IsMerged sample_documented sample_flags [] sample_world sample_variables flags_now
unfolding flags_now
resolved_flags-IsMerged_example =
    resolved_flags-IsMerged sample_documented sample_flags [] sample_world sample_variables

abbrev pub sample_cli : CliFlags
sample_cli = record {
  config = text "/b/f/x.git/HEAD";
  dest = [];
  forges = [];
  state = [];
  archive = [];
  archive_dir = [];
  export_metadata = [];
  concurrency = 0;
  dry_run = false;
  prune_removed = false;
  verbose = false;
  timeout = 0;
}

abbrev pub no_console : Console
no_console = record { interactive = false; answer = ok [] }

abbrev pub config_path : FilePath
config_path = text "b" ∷ text "f" ∷ text "x.git" ∷ text "HEAD" ∷ []

pub config_found : (resolve_config_path no_console sample_cli sample_world).0 ≡ ok config_path
unfolding resolve_config_path Paths.expand_home Paths.place has_prefix list_beq join walk_parts
    enter split_on push_first
config_found = refl

pub dry_run_now :
    (resolved_flags sample_viper
      (build_viper sample_viper sample_flags config_path sample_world)
      sample_env).dry_run
    ≡ true
unfolding flags_now
dry_run_now = refl

-- Without --verbose the debug lines stay away.
quiet_log :
    written false ((debug, "mirroring", text "x") ∷ (error, "mirror failed", text "x") ∷ [])
    ≡ (error, "mirror failed", text "x") ∷ []
unfolding written rank lowest_level
quiet_log = refl
