-- ===== src/Cli/Reads.antt =====
-- internal/backup/cli.go: what `list` and `run --dry-run` leave as it was.
use backup_git_repos.Base.{
  Text, text, Option, List, [], ◌∷◌, Bool, true, false, ◌||◌, ◌≡◌, refl, ◌∙◌, ap, arith, inl, inr,
  Bool-cases,
}
use backup_git_repos.FilePath.{FilePath}
use backup_git_repos.Error.{Result, ok}
use backup_git_repos.Error.Steps.{Result-cases}
use backup_git_repos.World.{World, wrapping, print_line, stat, read_file}
use backup_git_repos.Repo.{Repo}
use backup_git_repos.Config.{ForgeConfig, Config, load_config, decode_config}
use backup_git_repos.Run.Types.{Runner}
use backup_git_repos.Run.Failure.{OnlyReads}
use backup_git_repos.World.Reads.{KeepsDisk, bind-KeepsDisk}
use backup_git_repos.Cli.{
  select, ask_for_config, usable_config, resolve_config_path, is_selected, run_forges, run_backup,
}
use backup_git_repos.Cli.Paths.{CliFlags}
use backup_git_repos.Cli.Flags.{Flag, Viper, build_viper, resolved_flags}
use backup_git_repos.Cli.Init.{Console}
use backup_git_repos.Cli.Forge.{
  Selection, print_repos, list_forge, dry_run_config, use_runner, run_forge,
}
use backup_git_repos.Cli.DryRun.Predicts.{dry_run_forge-keeps}

read_file-KeepsDisk : (path : FilePath) → KeepsDisk (read_file path)
unfolding read_file
read_file-KeepsDisk path = record { fs = λ w. ground arith }

load_config-KeepsDisk :
    (decode : Text → Option Config) (path : FilePath) → KeepsDisk (load_config decode path)
unfolding load_config
load_config-KeepsDisk decode path =
    bind-KeepsDisk (wrapping (text "load config") (read_file path))
      (λ bytes w. (decode_config decode w.env bytes, w))
      (record { fs = (read_file-KeepsDisk path).fs }) (λ bytes. record { fs = λ w. refl })

print_repos-keeps :
    (forge : Text) (repos : List Repo) (w : World) → (print_repos forge repos w).fs ≡ w.fs
unfolding print_repos print_line
print_repos-keeps forge [] w = refl
print_repos-keeps forge (repo ∷ repos) w = print_repos-keeps forge repos _

module _ (runner : Runner) (reads : OnlyReads runner) (sel : Selection) (flags : CliFlags) where
  list_forge-KeepsDisk : (forge : Text) → KeepsDisk (list_forge runner forge sel.state)
  unfolding list_forge
  list_forge-KeepsDisk forge =
      bind-KeepsDisk (wrapping (text "list") (runner.list_repos sel.state))
        (λ repos w. (ok tt, print_repos forge repos w)) (record { fs = reads sel.state })
        (λ repos. record { fs = print_repos-keeps forge repos })

  use_runner-KeepsDisk :
      (list_only : Bool) (fc : ForgeConfig)
      → list_only || flags.dry_run ≡ true
      → KeepsDisk (use_runner sel flags list_only fc runner)
  unfolding use_runner
  use_runner-KeepsDisk true fc h = list_forge-KeepsDisk fc.name
  use_runner-KeepsDisk false fc h =
      simp h (record { fs = λ w. dry_run_forge-keeps runner fc (dry_run_config sel flags) w reads })

-- Every runner's listing only reads.
abbrev pub AllOnlyRead : (ForgeConfig → Result Runner) → Type 0
AllOnlyRead new_runner =
    (fc : ForgeConfig) (runner : Runner) → new_runner fc ≡ ok runner → OnlyReads runner

module _ (new_runner : ForgeConfig → Result Runner) (reads : AllOnlyRead new_runner) where
  run_forge-KeepsDisk :
      (sel : Selection) (flags : CliFlags) (list_only : Bool) (fc : ForgeConfig)
      → list_only || flags.dry_run ≡ true
      → KeepsDisk (run_forge new_runner sel flags list_only fc)
  unfolding run_forge
  run_forge-KeepsDisk sel flags list_only fc h = elim (Result-cases (new_runner fc)) [
    | inr (e, p) ↦ record { fs = λ w. rw p refl }
    | inl (runner, p) ↦ record {
      fs = λ w.
          rw p ((use_runner-KeepsDisk runner (reads fc runner p) sel flags list_only fc h).fs w);
    }
  ]

  run_forges-KeepsDisk :
      (sel : Selection) (flags : CliFlags) (list_only : Bool) (fcs : List ForgeConfig)
      → list_only || flags.dry_run ≡ true
      → KeepsDisk (run_forges new_runner sel flags list_only fcs)
  unfolding run_forges
  run_forges-KeepsDisk sel flags list_only [] h = record { fs = λ w. refl }
  run_forges-KeepsDisk sel flags list_only (fc ∷ fcs) h =
      let rest = run_forges-KeepsDisk sel flags list_only fcs h in
      elim (Bool-cases (is_selected flags.forges fc.name)) [
        | inr out ↦ rw out rest
        | inl in_ ↦ rw in_ (
            bind-KeepsDisk (run_forge new_runner sel flags list_only fc)
              (λ _. run_forges new_runner sel flags list_only fcs)
              (run_forge-KeepsDisk sel flags list_only fc h) (λ _. rest))
      ]

select-same :
    (decode : Text → Option Config) (path : FilePath) (flags : CliFlags) (list_only : Bool)
    (w : World)
    → (select decode path flags list_only w).1 ≡ w
unfolding select load_config read_file
select-same decode path flags list_only w = ground arith

-- Where a configuration file is found, finding it has changed nothing.
resolve_config_path-same :
    (console : Console) (flags : CliFlags) (path : FilePath) (w : World)
    → (resolve_config_path console flags w).0 ≡ ok path
    → resolve_config_path console flags w ≡ (ok path, w)
unfolding resolve_config_path usable_config ask_for_config stat
resolve_config_path-same console flags path w h = ground arith

-- `list`, and a run whose flags resolve to --dry-run, leave the disk as it was, whether they succeed
-- or fail, where a configuration file is found and the forges' listings only read.
pub run_backup-keeps :
    (decode : Text → Option Config) (viper : Viper) (new_runner : ForgeConfig → Result Runner)
    (console : Console) (initial : CliFlags) (bound : List Flag) (list_only : Bool)
    (path : FilePath) (w : World)
    → AllOnlyRead new_runner
    → (resolve_config_path console initial w).0 ≡ ok path
    → list_only || (resolved_flags viper (build_viper viper bound path w) w.env).dry_run ≡ true
    → (run_backup decode viper new_runner console initial bound list_only w).1.fs ≡ w.fs
unfolding run_backup
run_backup-keeps decode viper new_runner console initial bound list_only path w reads found quiet =
    let flags = resolved_flags viper (build_viper viper bound path w) w.env in
    let same = select-same decode path flags list_only w in
    rw (resolve_config_path-same console initial path w found)
      (elim (Result-cases (select decode path flags list_only w).0) [
        | inr (e, p) ↦ rw p (ap (λ (v : World). v.fs) same)
        | inl ((sel, forges), p) ↦ rw p (
            (run_forges-KeepsDisk new_runner reads sel flags list_only forges quiet).fs
              (select decode path flags list_only w).1
            ∙ ap (λ (v : World). v.fs) same)
      ])
