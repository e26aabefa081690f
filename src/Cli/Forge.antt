-- ===== src/Cli/Forge.antt =====
-- internal/backup/cli.go: what is done for one forge of the configuration.
use backup_git_repos.Base.{Text, text, ℕ, String, List, [], ◌∷◌, Bool, if◌then◌else◌}
use backup_git_repos.FilePath.{FilePath, join}
use backup_git_repos.Error.{Result, ok}
use backup_git_repos.World.{World, Io, Line, line, summary, wrapping, ◌>>=◌, print_line}
use backup_git_repos.Repo.{Repo, State, ArchiveSelection}
use backup_git_repos.Metadata.{MetadataKind}
use backup_git_repos.Config.{ForgeConfig}
use backup_git_repos.Run.Types.{Runner, Options, RunResult}
use backup_git_repos.Run.Loop.{run}
use backup_git_repos.Cli.Paths.{CliFlags}
use backup_git_repos.Cli.DryRun.{DryRunConfig, named, dry_run_forge}

-- What the parsed flags and the configuration file settle for every forge.
pub record Selection : Type 0 where
  pub dest : FilePath
  pub archive_dir : FilePath
  pub state : State
  pub archive : ArchiveSelection
  pub kinds : List MetadataKind

unfoldable pub print_repos : Text → List Repo → World → World
print_repos forge [] w = w
print_repos forge (repo ∷ repos) w =
    print_repos forge repos (print_line (line (named forge repo.path)) w)

unfoldable pub list_forge : Runner → Text → State → Io (Unit {0})
list_forge runner forge state = do
  repos ← wrapping (text "list") (runner.list_repos state)
  λ w. (ok tt, print_repos forge repos w)

unfoldable pub run_options : Selection → CliFlags → Text → Options
run_options sel flags forge = record {
  dest = join sel.dest forge;
  state = sel.state;
  archive = sel.archive;
  archive_dir = join sel.archive_dir forge;
  concurrency = flags.concurrency;
  prune_removed = flags.prune_removed;
  export_metadata = sel.kinds;
}

abbrev pub exported_summary : List MetadataKind → RunResult → List (String × ℕ)
exported_summary [] r = []
exported_summary (kind ∷ kinds) r = ("metadata exported", r.metadata_exported) ∷ []

unfoldable pub run_summary : Text → List MetadataKind → RunResult → Line
run_summary forge kinds r = summary forge (
    ("synced", r.synced)
    ∷ ("skipped", r.skipped)
    ∷ ("failed", r.failed)
    ∷ ("archived", r.archived)
    ∷ ("pruned", r.pruned)
    ∷ exported_summary kinds r)

unfoldable pub backup_forge : Runner → Selection → CliFlags → Text → Io (Unit {0})
backup_forge runner sel flags forge = do
  result ← wrapping (text "run") (run runner (run_options sel flags forge))
  λ w. (ok tt, print_line (run_summary forge sel.kinds result) w)

unfoldable pub dry_run_config : Selection → CliFlags → DryRunConfig
dry_run_config sel flags = record {
  dest = sel.dest;
  archive_dir = sel.archive_dir;
  state = sel.state;
  archive = sel.archive;
  prune_removed = flags.prune_removed;
}

unfoldable pub use_runner : Selection → CliFlags → Bool → ForgeConfig → Runner → Io (Unit {0})
use_runner sel flags list_only fc runner =
    if list_only
    then list_forge runner fc.name sel.state
    else if flags.dry_run
    then dry_run_forge fc (dry_run_config sel flags) runner
    else backup_forge runner sel flags fc.name

unfoldable pub run_forge :
    (ForgeConfig → Result Runner) → Selection → CliFlags → Bool → ForgeConfig → Io (Unit {0})
run_forge new_runner sel flags list_only fc = do
  runner ← λ w. (new_runner fc, w)
  use_runner sel flags list_only fc runner
