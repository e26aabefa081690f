-- ===== src/Cli.antt =====
-- internal/backup/cli.go: what the commands `run` and `list` do once their flags are parsed. cobra,
-- viper and the console are parameters.
pub mod Paths
pub mod Flags
pub mod Init
pub mod DryRun
pub mod Forge
pub mod Forges
pub mod Commands
pub mod Logger
pub mod Progress
pub mod Reads
use backup_git_repos.Base.{
  Text, text, Option, List, [], ◌∷◌, Bool, true, false, not, ◌&&◌, ◌==◌, list_eq, nat_eq, contains,
  Comparable, list_beq, if◌then◌else◌,
}
use backup_git_repos.FilePath.{FilePath}
use backup_git_repos.Error.{Result, ok, err, wrap, config_required, config_init_written}
use backup_git_repos.World.{World, Io, pure, fail, wrapping, settle, ◌>>=◌, ◌>>◌, stat}
use backup_git_repos.Repo.{State, ArchiveSelection, parse_state, parse_archive}
use backup_git_repos.Metadata.{MetadataKind, parse_metadata_kinds}
use backup_git_repos.Config.{ForgeConfig, Config, load_config}
use backup_git_repos.Run.Types.{Runner}
use backup_git_repos.Cli.Paths.{
  CliFlags, given, expand_home, default_config_path, resolve_dest_paths,
}
use backup_git_repos.Cli.Flags.{Flag, Viper, build_viper, resolved_flags}
use backup_git_repos.Cli.Init.{Console, prompt_config_init}
use backup_git_repos.Cli.Forge.{Selection, run_forge}

-- What happens where no file stands at the default path.
unfoldable pub ask_for_config : Console → CliFlags → FilePath → Io FilePath
ask_for_config console flags path =
    if console.interactive
    then (do
      wrote ← prompt_config_init console flags path
      fail (if wrote then config_init_written path else config_required path))
    else fail (config_required path)

unfoldable pub usable_config : Console → CliFlags → FilePath → Io FilePath
usable_config console flags path w =
    settle (stat path w).0 (λ e. ask_for_config console flags path w) (λ n. (ok path, w))

unfoldable pub resolve_config_path : Console → CliFlags → Io FilePath
resolve_config_path console flags =
    if flags.config == []
    then (do path ← given default_config_path; usable_config console flags path)
    else given (λ env. expand_home env flags.config)

-- Whether --forge leaves a forge in.
unfoldable pub is_selected : List Text → Text → Bool
is_selected forges name = if forges == [] then true else contains forges name

-- The loop of `runBackup` over the forges of the configuration.
unfoldable pub run_forges :
    (ForgeConfig → Result Runner) → Selection → CliFlags → Bool → List ForgeConfig → Io (Unit {0})
run_forges new_runner sel flags list_only [] = pure tt
run_forges new_runner sel flags list_only (fc ∷ fcs) =
    let rest = run_forges new_runner sel flags list_only fcs in
    if is_selected flags.forges fc.name
    then (do run_forge new_runner sel flags list_only fc; rest)
    else rest

module _ (decode : Text → Option Config) where
  -- The middle of `runBackup`: what the flags and the configuration file settle, and the forges.
  unfoldable pub select : FilePath → CliFlags → Bool → Io (Selection × List ForgeConfig)
  select path flags list_only = do
    state ← given (λ env. parse_state flags.state)
    archive ← given (λ env. parse_archive flags.archive)
    kinds ← given (λ env. parse_metadata_kinds flags.export_metadata)
    cfg ← load_config decode path
    (dest, archive_dir) ← given (λ env. resolve_dest_paths env flags cfg list_only)
    pure (
      record {
        dest = dest;
        archive_dir = archive_dir;
        state = state;
        archive = archive;
        kinds = kinds;
      },
      cfg.forges,
    )

  module _ (viper : Viper) where
    unfoldable pub run_backup :
        (ForgeConfig → Result Runner) → Console → CliFlags → List Flag → Bool → Io (Unit {0})
    run_backup new_runner console initial bound list_only = do
      path ← resolve_config_path console initial
      flags ← λ w. (ok (resolved_flags viper (build_viper viper bound path w) w.env), w)
      (sel, forges) ← select path flags list_only
      run_forges new_runner sel flags list_only forges
