-- ===== src/Cli/Logger.antt =====
-- internal/backup/cli.go: `newCLILogger`. A world keeps every line of the log; these are the ones that
-- reach standard error.
use backup_git_repos.Base.{ℕ, List, [], ◌∷◌, Bool, leb, if◌then◌else◌}
use backup_git_repos.World.{Level, debug, info, warn, error, LogLine}

-- The levels of `log/slog` in their order.
unfoldable pub rank : Level → ℕ
rank debug = 0
rank info = 1
rank warn = 2
rank error = 3

unfoldable pub lowest_level : Bool → Level
lowest_level verbose = if verbose then debug else info

-- What the handler writes.
unfoldable pub written : Bool → List LogLine → List LogLine
written verbose [] = []
written verbose ((level, message, path) ∷ lines) =
    let rest = written verbose lines in
    if leb (rank (lowest_level verbose)) (rank level) then (level, message, path) ∷ rest else rest
