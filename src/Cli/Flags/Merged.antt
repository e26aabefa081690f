-- ===== src/Cli/Flags/Merged.antt =====
-- internal/backup/cli.go: the order in which the settings of `run` and `list` are looked for.
use backup_git_repos.Base.{
  Text, text, ℕ, ◌-◌, List, [], ◌∷◌, ◌++◌, map, Option, none, some, ◌≡◌, refl, ◌∙◌, ap, arith, Bool,
  true, ◌==◌, ◌&&◌, leb, nat_eq, list_eq, if◌then◌else◌,
}
use mathlib.Core.Path.{fun_ext}
use backup_git_repos.FilePath.{FilePath}
use backup_git_repos.World.{Env, World}
use backup_git_repos.Cli.Paths.{CliFlags}
use backup_git_repos.Cli.Flags.{
  Flag, Viper, env_prefix, underscores, bind_flags, build_viper, resolved_flags,
}

module _ {A : Type 0} where
  abbrev pub or_else : Option A → Option A → Option A
  or_else (some a) o = some a
  or_else none o = o

or_else-none : {A : Type 0} (o : Option A) → or_else o none ≡ o
or_else-none none = refl
or_else-none (some a) = refl

-- An environment variable that is set, and not to nothing.
unfoldable pub variable : List (Text × Text) → Text → Option Text
variable [] name = none
variable ((n, v) ∷ vars) name =
    let rest = variable vars name in if n == name then (if v == [] then none else some v) else rest

-- The flag of a name.
unfoldable pub flag_named : List Flag → Text → Option Flag
flag_named [] name = none
flag_named (f ∷ fs) name = or_else (flag_named fs name) (if f.name == name then some f else none)

abbrev pub passed : Option Flag → Option Text
passed none = none
passed (some f) = if f.changed then some f.value else none

abbrev pub default : Option Flag → Option Text
default none = none
default (some f) = some f.value

abbrev pub as_value : {V : Type 0} → (Text → V) → Option Text → Option V
as_value of_text none = none
as_value of_text (some s) = some (of_text s)

-- The value of a setting: the flag that was passed, or else the environment variable, or else the
-- configuration file's, or else the flag's default.
abbrev pub merged : {V : Type 0} → (Text → V) → Option Flag → Option Text → Option V → Option V
merged of_text flag var config =
    or_else (as_value of_text (passed flag))
      (or_else (as_value of_text var) (or_else config (as_value of_text (default flag))))

unfoldable pub upper : Text → Text
upper = map (λ c. if leb b'a' c && leb c b'z' then c - 32 else c)

-- What a store of viper holds.
pub record Settings (V : Type 0) : Type 0 where
  pub prefix : Text
  pub replace : Text → Text
  pub automatic : Bool
  pub flags : Text → Option Flag
  pub file : FilePath
  pub config : Text → Option V

-- What a store answers for a key.
abbrev pub effective : {V : Type 0} → (Text → V) → Settings V → Env → Text → Option V
effective of_text s env key =
    let name = s.replace (upper (s.prefix ++ (text "_" ++ key))) in
    merged of_text (s.flags key) (if s.automatic then variable env.variables name else none)
      (s.config key)

-- What the program relies on viper for, as its documentation has it: what each call keeps in the
-- store, the name of the environment variable that belongs to a key, and the order of precedence.
pub record Documented (viper : Viper) : Type 1 where
  pub Value : Type 0
  pub of_text : Text → Value
  pub settings : viper.Store → Settings Value
  -- What a configuration file says of a key.
  pub contents : World → FilePath → Text → Option Value
  pub to_string : Option Value → Text
  pub to_slice : Option Value → List Text
  pub to_int : Option Value → ℕ
  pub to_duration : Option Value → ℕ
  pub to_bool : Option Value → Bool
  pub new : (settings viper.new).flags ≡ (λ name. none)
  pub set_env_prefix :
      (p : Text) (v : viper.Store)
      → settings (viper.set_env_prefix p v) ≡ record (settings v) { prefix = p }
  pub set_env_key_replacer :
      (r : Text → Text) (v : viper.Store)
      → settings (viper.set_env_key_replacer r v) ≡ record (settings v) { replace = r }
  pub automatic_env :
      (v : viper.Store)
      → settings (viper.automatic_env v) ≡ record (settings v) { automatic = true }
  pub bind_pflag :
      (name : Text) (f : Flag) (v : viper.Store)
      → settings (viper.bind_pflag name f v) ≡ record (settings v) {
        flags = λ key. if name == key then some f else (settings v).flags key;
      }
  pub set_config_file :
      (path : FilePath) (v : viper.Store)
      → settings (viper.set_config_file path v) ≡ record (settings v) { file = path }
  pub read_in_config :
      (w : World) (v : viper.Store)
      → settings (viper.read_in_config w v)
        ≡ record (settings v) { config = contents w (settings v).file }
  pub get_string :
      (v : viper.Store) (env : Env) (key : Text)
      → viper.get_string v env key ≡ to_string (effective of_text (settings v) env key)
  pub get_string_slice :
      (v : viper.Store) (env : Env) (key : Text)
      → viper.get_string_slice v env key ≡ to_slice (effective of_text (settings v) env key)
  pub get_int :
      (v : viper.Store) (env : Env) (key : Text)
      → viper.get_int v env key ≡ to_int (effective of_text (settings v) env key)
  pub get_duration :
      (v : viper.Store) (env : Env) (key : Text)
      → viper.get_duration v env key ≡ to_duration (effective of_text (settings v) env key)
  pub get_bool :
      (v : viper.Store) (env : Env) (key : Text)
      → viper.get_bool v env key ≡ to_bool (effective of_text (settings v) env key)

module _ {viper : Viper} (doc : Documented viper) where
  open doc use {Value, of_text, settings, contents}

  bind_flags-settings :
      (fs : List Flag) (v : viper.Store)
      → settings (bind_flags viper fs v) ≡ record (settings v) {
        flags = λ key. or_else (flag_named fs key) ((settings v).flags key);
      }
  unfolding bind_flags flag_named
  bind_flags-settings [] v = refl
  bind_flags-settings (f ∷ fs) v =
      bind_flags-settings fs (viper.bind_pflag f.name f v)
      ∙ rw (doc.bind_pflag f.name f v) (
          ap (λ (g : Text → Option Flag). record (settings v) { flags = g })
            (fun_ext (λ key. ground arith)))

  build_viper-settings :
      (fs : List Flag) (path : FilePath) (w : World)
      → settings (build_viper viper fs path w) ≡ record {
        prefix = env_prefix;
        replace = underscores;
        automatic = true;
        flags = flag_named fs;
        file = path;
        config = contents w path;
      }
  unfolding build_viper
  build_viper-settings fs path w =
      simp
        (
          doc.read_in_config, doc.set_config_file, bind_flags-settings, doc.automatic_env,
          doc.set_env_key_replacer, doc.set_env_prefix,
        )
        (ap
          (λ (g : Text → Option Flag). record {
            prefix = env_prefix;
            replace = underscores;
            automatic = true;
            flags = g;
            file = path;
            config = contents w path;
          })
          (fun_ext (λ key. rw doc.new (or_else-none (flag_named fs key)))))

  -- A setting by the name of its flag, which is its key in the file, and that of its variable.
  abbrev pub setting : List Flag → FilePath → World → Env → Text → Text → Option Value
  setting fs path w env name var =
      merged of_text (flag_named fs name) (variable env.variables var) (contents w path name)

  -- Each setting is what its flag, its environment variable and the configuration file come to.
  pub record IsMerged (fs : List Flag) (path : FilePath) (w : World) (env : Env) (r : CliFlags)
      : Type 0 where
    pub dest :
        r.dest ≡ doc.to_string (setting fs path w env (text "dest") (text "BACKUP_GIT_REPOS_DEST"))
    pub forges :
        r.forges
        ≡ doc.to_slice (setting fs path w env (text "forge") (text "BACKUP_GIT_REPOS_FORGE"))
    pub state :
        r.state
        ≡ doc.to_string (setting fs path w env (text "state") (text "BACKUP_GIT_REPOS_STATE"))
    pub archive :
        r.archive
        ≡ doc.to_string (setting fs path w env (text "archive") (text "BACKUP_GIT_REPOS_ARCHIVE"))
    pub archive_dir :
        r.archive_dir
        ≡ doc.to_string
            (setting fs path w env (text "archive-dir") (text "BACKUP_GIT_REPOS_ARCHIVE_DIR"))
    pub concurrency :
        r.concurrency
        ≡ doc.to_int
            (setting fs path w env (text "concurrency") (text "BACKUP_GIT_REPOS_CONCURRENCY"))
    pub timeout :
        r.timeout
        ≡ doc.to_duration (setting fs path w env (text "timeout") (text "BACKUP_GIT_REPOS_TIMEOUT"))
    pub verbose :
        r.verbose
        ≡ doc.to_bool (setting fs path w env (text "verbose") (text "BACKUP_GIT_REPOS_VERBOSE"))
    pub dry_run :
        r.dry_run
        ≡ doc.to_bool (setting fs path w env (text "dry-run") (text "BACKUP_GIT_REPOS_DRY_RUN"))
    pub prune_removed :
        r.prune_removed
        ≡ doc.to_bool
            (setting fs path w env (text "prune-removed") (text "BACKUP_GIT_REPOS_PRUNE_REMOVED"))
    pub export_metadata :
        r.export_metadata
        ≡ doc.to_slice (
            setting fs path w env
              (text "export-metadata")
              (text "BACKUP_GIT_REPOS_EXPORT_METADATA"))

  -- The settings that `run` and `list` read back: each is its flag's value where it was passed, or
  -- else its environment variable's, BACKUP_GIT_REPOS_ with the flag's name, where it is set to
  -- something, or else the configuration file's, or else the flag's default.
  pub resolved_flags-IsMerged :
      (fs : List Flag) (path : FilePath) (w : World) (env : Env)
      → IsMerged fs path w env (resolved_flags viper (build_viper viper fs path w) env)
  unfolding resolved_flags upper underscores
  resolved_flags-IsMerged fs path w env = record {
    dest =
        doc.get_string (build_viper viper fs path w) env (text "dest")
        ∙ rw (build_viper-settings fs path w) refl;
    forges =
        doc.get_string_slice (build_viper viper fs path w) env (text "forge")
        ∙ rw (build_viper-settings fs path w) refl;
    state =
        doc.get_string (build_viper viper fs path w) env (text "state")
        ∙ rw (build_viper-settings fs path w) refl;
    archive =
        doc.get_string (build_viper viper fs path w) env (text "archive")
        ∙ rw (build_viper-settings fs path w) refl;
    archive_dir =
        doc.get_string (build_viper viper fs path w) env (text "archive-dir")
        ∙ rw (build_viper-settings fs path w) refl;
    concurrency =
        doc.get_int (build_viper viper fs path w) env (text "concurrency")
        ∙ rw (build_viper-settings fs path w) refl;
    timeout =
        doc.get_duration (build_viper viper fs path w) env (text "timeout")
        ∙ rw (build_viper-settings fs path w) refl;
    verbose =
        doc.get_bool (build_viper viper fs path w) env (text "verbose")
        ∙ rw (build_viper-settings fs path w) refl;
    dry_run =
        doc.get_bool (build_viper viper fs path w) env (text "dry-run")
        ∙ rw (build_viper-settings fs path w) refl;
    prune_removed =
        doc.get_bool (build_viper viper fs path w) env (text "prune-removed")
        ∙ rw (build_viper-settings fs path w) refl;
    export_metadata =
        doc.get_string_slice (build_viper viper fs path w) env (text "export-metadata")
        ∙ rw (build_viper-settings fs path w) refl;
  }
