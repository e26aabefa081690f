-- ===== src/Cli/Flags.antt =====
-- internal/backup/cli.go: the flags of the commands, and how `run` and `list` read them back through
-- viper (`buildViper`, `resolvedFlags`). spf13/viper is a parameter.
pub mod Merged
use backup_git_repos.Base.{Text, text, ℕ, List, [], ◌∷◌, map, ◌==◌, nat_eq, Bool, if◌then◌else◌}
use backup_git_repos.FilePath.{FilePath}
use backup_git_repos.World.{Env, World}
use backup_git_repos.Cli.Paths.{CliFlags}

-- A flag of a command once cobra has parsed the arguments: its name, its value as text, which is its
-- default unless it was passed, and whether it was.
pub record Flag : Type 0 where
  pub name : Text
  pub value : Text
  pub changed : Bool

-- The calls of viper. A `Store` is what a `*viper.Viper` points to.
pub record Viper : Type 1 where
  pub Store : Type 0
  pub new : Store
  pub set_env_prefix : Text → Store → Store
  pub set_env_key_replacer : (Text → Text) → Store → Store
  pub automatic_env : Store → Store
  pub bind_pflag : Text → Flag → Store → Store
  pub set_config_file : FilePath → Store → Store
  pub read_in_config : World → Store → Store
  pub get_string : Store → Env → Text → Text
  pub get_string_slice : Store → Env → Text → List Text
  pub get_int : Store → Env → Text → ℕ
  pub get_duration : Store → Env → Text → ℕ
  pub get_bool : Store → Env → Text → Bool

abbrev pub env_prefix : Text
env_prefix = text "BACKUP_GIT_REPOS"

-- `strings.NewReplacer("-", "_")`
unfoldable pub underscores : Text → Text
underscores = map (λ c. if c == b'-' then b'_' else c)

module _ (viper : Viper) where
  open viper use {
    Store, new, set_env_prefix, set_env_key_replacer, automatic_env, bind_pflag, set_config_file,
    read_in_config, get_string, get_string_slice, get_int, get_duration, get_bool,
  }

  -- Every flag of the command is bound under its own name.
  unfoldable pub bind_flags : List Flag → Store → Store
  bind_flags [] v = v
  bind_flags (f ∷ fs) v = bind_flags fs (bind_pflag f.name f v)

  -- The error of `ReadInConfig` is dropped: `load_config` meets it again.
  unfoldable pub build_viper : List Flag → FilePath → World → Store
  build_viper flags path w =
      let named = set_env_key_replacer underscores (set_env_prefix env_prefix new) in
      read_in_config w (set_config_file path (bind_flags flags (automatic_env named)))

  -- --config is not among what is read back.
  unfoldable pub resolved_flags : Store → Env → CliFlags
  resolved_flags v env = record {
    config = [];
    dest = get_string v env (text "dest");
    forges = get_string_slice v env (text "forge");
    state = get_string v env (text "state");
    archive = get_string v env (text "archive");
    archive_dir = get_string v env (text "archive-dir");
    concurrency = get_int v env (text "concurrency");
    timeout = get_duration v env (text "timeout");
    verbose = get_bool v env (text "verbose");
    dry_run = get_bool v env (text "dry-run");
    prune_removed = get_bool v env (text "prune-removed");
    export_metadata = get_string_slice v env (text "export-metadata");
  }
