-- ===== src/Cli/Commands.antt =====
-- internal/backup/cli.go and cli_config.go: the commands, their flags and what each runs
-- (`NewRootCommand`, `newConfigCommand`, `newManCommand`). cobra picks the command and parses its
-- arguments.
use backup_git_repos.Base.{Text, text, List, [], ◌∷◌, ◌++◌, Option, Bool, true, false}
use backup_git_repos.FilePath.{FilePath}
use backup_git_repos.Error.{Result, ok}
use backup_git_repos.World.{Io, line, wrapping, print_line, mkdir_all, ◌>>◌}
use backup_git_repos.Config.{ForgeConfig, Config}
use backup_git_repos.Run.Types.{Runner}
use backup_git_repos.Cli.{run_backup}
use backup_git_repos.Cli.Paths.{CliFlags, place}
use backup_git_repos.Cli.Flags.{Flag, Viper}
use backup_git_repos.Cli.Init.{Console, run_config_init}

-- A flag as it is declared: its name, its letter, and its default as pflag prints it.
pub record FlagSpec : Type 0 where
  pub name : Text
  pub letter : Text
  pub default : Text

abbrev spec : Text → Text → Text → FlagSpec
spec name letter default = record { name = name; letter = letter; default = default }

-- --config, which every command has.
abbrev pub config_flag : FlagSpec
config_flag = spec (text "config") (text "c") []

-- `addRunFlags`
abbrev pub run_flags : List FlagSpec
run_flags =
    spec (text "forge") [] (text "[]")
    ∷ spec (text "state") [] (text "all")
    ∷ spec (text "concurrency") (text "j") (text "0")
    ∷ spec (text "timeout") [] (text "30m0s")
    ∷ []

abbrev pub run_only_flags : List FlagSpec
run_only_flags =
    spec (text "dest") (text "d") []
    ∷ spec (text "archive") [] (text "none")
    ∷ spec (text "archive-dir") [] []
    ∷ spec (text "verbose") (text "v") (text "false")
    ∷ spec (text "dry-run") [] (text "false")
    ∷ spec (text "prune-removed") [] (text "false")
    ∷ spec (text "export-metadata") [] (text "[]")
    ∷ []

-- What cobra makes of the arguments of a command: the flags it writes to `cliFlags`, `--force`, the
-- flags themselves, and what is left.
pub record Parsed : Type 0 where
  pub cli : CliFlags
  pub force : Bool
  pub flags : List Flag
  pub args : List Text

-- A command by the words that name it.
pub record Command : Type 0 where
  pub use_words : List Text
  pub hidden : Bool
  pub flags : List FlagSpec
  pub run_e : Parsed → Io (Unit {0})

-- cobra has seen to there being one argument.
unfoldable pub only_arg : List Text → Text
only_arg [] = []
only_arg (arg ∷ args) = arg

-- `newManCommand`, over `doc.GenManTree`.
unfoldable pub write_man : (FilePath → Io (Unit {0})) → Text → Io (Unit {0})
write_man gen_man_tree arg w =
    let dir = place w.env arg in
    (do
      wrapping (text "create man page directory") (mkdir_all dir)
      wrapping (text "generate man pages") (gen_man_tree dir))
      w

unfoldable pub config_init_command : Command
config_init_command = record {
  use_words = text "config" ∷ text "init" ∷ [];
  hidden = false;
  flags = config_flag ∷ spec (text "force") [] (text "false") ∷ [];
  run_e = λ p. run_config_init p.cli p.force;
}

unfoldable pub man_command : (FilePath → Io (Unit {0})) → Command
man_command gen_man_tree = record {
  use_words = text "man" ∷ [];
  hidden = true;
  flags = config_flag ∷ [];
  run_e = λ p. write_man gen_man_tree (only_arg p.args);
}

module _ (decode : Text → Option Config) (viper : Viper) (version : Text)
    (new_runner : ForgeConfig → Result Runner) (console : Console)
    (gen_man_tree : FilePath → Io (Unit {0})) where
  unfoldable pub root_command : List Command
  root_command =
      record {
        use_words = text "run" ∷ [];
        hidden = false;
        flags = config_flag ∷ (run_flags ++ run_only_flags);
        run_e = λ p. run_backup decode viper new_runner console p.cli p.flags false;
      }
      ∷ record {
        use_words = text "list" ∷ [];
        hidden = false;
        flags = config_flag ∷ run_flags;
        run_e = λ p. run_backup decode viper new_runner console p.cli p.flags true;
      }
      ∷ record {
        use_words = text "version" ∷ [];
        hidden = false;
        flags = config_flag ∷ [];
        run_e = λ p w. (ok tt, print_line (line version) w);
      }
      ∷ config_init_command
      ∷ man_command gen_man_tree
      ∷ []
