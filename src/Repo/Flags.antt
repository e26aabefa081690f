-- ===== src/Repo/Flags.antt =====
-- The values that --state and --archive accept.
use backup_git_repos.Base.{◌≡◌, arith}
use backup_git_repos.Error.{ok}
use backup_git_repos.Repo.{State, state_text, parse_state}

-- A state's text is read back as that state.
pub parse_state-state_text : (s : State) → parse_state (state_text s) ≡ ok s
unfolding parse_state state_text
parse_state-state_text s = ground arith
