-- ===== src/Cli/Paths.antt =====
-- internal/backup/cli.go and cli_config.go: the flags, and the paths that they and the configuration
-- file lead to. A relative path starts from the working directory.
use backup_git_repos.Base.{
  Text, text, ℕ, List, [], ◌∷◌, none, some, Bool, not, ◌&&◌, ◌==◌, list_eq, nat_eq, has_prefix,
  if◌then◌else◌,
}
use backup_git_repos.FilePath.{FilePath, join}
use backup_git_repos.Error.{Result, ok, err, wrap, no_home, dest_required}
use backup_git_repos.Error.Steps
use backup_git_repos.World.{Env, Io}
use backup_git_repos.Config.{Config}

-- `cliFlags`
pub record CliFlags : Type 0 where
  pub config : Text
  pub dest : Text
  pub forges : List Text
  pub state : Text
  pub archive : Text
  pub archive_dir : Text
  pub export_metadata : List Text
  pub concurrency : ℕ
  pub dry_run : Bool
  pub prune_removed : Bool
  pub verbose : Bool
  pub timeout : ℕ

-- A value that only the environment of the process decides.
abbrev pub given {ℓ} : {A : Type ℓ} → (Env → Result A) → Io A
given f w = (f w.env, w)

-- The place that a path names for the system.
unfoldable pub place : Env → Text → FilePath
place env path = if has_prefix path (text "/") then join [] path else join env.working_dir path

unfoldable pub drop_two : Text → Text
drop_two (a ∷ b ∷ s) = s
drop_two s = []

unfoldable pub expand_home : Env → Text → Result FilePath
expand_home env path =
    if not (path == text "~") && not (has_prefix path (text "~/"))
    then ok (place env path)
    else elim env.home [
      | none ↦ err (wrap (text "expand ~") no_home)
      | some home ↦ if path == text "~" then ok home else ok (join home (drop_two path))
    ]

-- --archive-dir, or the directory `archive` of the destination.
unfoldable pub resolve_archive_dir : Env → Text → FilePath → Result FilePath
resolve_archive_dir env archive_dir dest =
    if archive_dir == [] then ok (join dest (text "archive")) else expand_home env archive_dir

unfoldable pub resolve_dest_paths : Env → CliFlags → Config → Bool → Result (FilePath × FilePath)
resolve_dest_paths env flags cfg list_only =
    let chosen = if flags.dest == [] then cfg.dest else flags.dest in
    if chosen == [] && not list_only
    then err dest_required
    else Steps.◌>>=◌ (expand_home env chosen) λ dest.
      Steps.◌>>=◌ (resolve_archive_dir env flags.archive_dir dest)
        λ archive_dir. ok (dest, archive_dir)

unfoldable pub default_config_path : Env → Result FilePath
default_config_path env = elim env.config_home [
  | none ↦ err (wrap (text "find config directory") no_home)
  | some dir ↦ ok (join (join dir (text "backup-git-repos")) (text "config.yaml"))
]

unfoldable pub config_init_path : CliFlags → Env → Result FilePath
config_init_path flags env =
    if flags.config == [] then default_config_path env else expand_home env flags.config
