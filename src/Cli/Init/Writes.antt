-- ===== src/Cli/Init/Writes.antt =====
-- internal/backup/cli_config.go: what `config init` leaves on disk.
use backup_git_repos.Base.{◌≡◌, refl, Bool, false, some, inl, inr}
use backup_git_repos.FilePath.{FilePath, dir_of}
use backup_git_repos.Fs.{Node, file, get}
use backup_git_repos.Error.{ok, err, config_exists}
use backup_git_repos.Error.Steps.{Result-cases}
use backup_git_repos.World.{World, stat, mkdir_all, write_file, print_line}
use backup_git_repos.World.Keeps.{get-write_file}
use backup_git_repos.Cli.Paths.{CliFlags, config_init_path}
use backup_git_repos.Cli.Init.{run_config_init, may_write, write_config, example_config}

-- Without --force, a file that stands where `config init` would write is refused, and nothing at all
-- is changed or printed.
init-keeps :
    (flags : CliFlags) (path : FilePath) (n : Node) (w : World)
    → config_init_path flags w.env ≡ ok path
    → (stat path w).0 ≡ ok n
    → run_config_init flags false w ≡ (err (config_exists path), w)
unfolding run_config_init may_write
init-keeps flags path n w h k = rw (h, k) refl

write_config-lem :
    (path : FilePath) (w : World)
    → (write_config path w).0 ≡ ok tt
    → get path (write_config path w).1.fs ≡ some (file example_config)
unfolding write_config print_line
write_config-lem path w h =
    let w₁ = (mkdir_all (dir_of path) w).1 in
    elim (Result-cases (mkdir_all (dir_of path) w).0) [
      | inr (e, p) ↦ cc (rw p at h)
      | inl (_, p) ↦ elim (Result-cases (write_file path example_config w₁).0) [
        | inr (e, q) ↦ cc (rw (p, q) at h)
        | inl (tt, q) ↦ rw (p, q) (get-write_file path example_config w₁ q)
      ]
    ]

-- Where `config init` succeeds, --force or not, the starter configuration stands at the path.
init-writes :
    (flags : CliFlags) (force : Bool) (path : FilePath) (w : World)
    → config_init_path flags w.env ≡ ok path
    → (run_config_init flags force w).0 ≡ ok tt
    → get path (run_config_init flags force w).1.fs ≡ some (file example_config)
unfolding run_config_init
init-writes flags force path w k h =
    let w₁ = (may_write force path w).1 in
    elim (Result-cases (may_write force path w).0) [
      | inr (e, p) ↦ cc (rw (k, p) at h)
      | inl (tt, p) ↦ rw (k, p) (write_config-lem path w₁ (rw (k, p) at h))
    ]
