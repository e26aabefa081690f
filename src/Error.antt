-- ===== src/Error.antt =====
-- The errors of internal/backup, internal/httperr and the adapters, and the results that carry them.
-- A sentinel is a constructor; `wrap` is `fmt.Errorf` with `%w` behind its context.
pub mod Steps
use backup_git_repos.Base.{Text, ℕ, Bool, true, false}
use backup_git_repos.FilePath.{FilePath}

-- The system calls that can fail.
pub data Op : Type 0 where
  stat_op mkdir_op temp_op remove_op rename_op read_op write_op copy_op close_op list_op : Op

pub data Err : Type 0 where
  os_error : Op → FilePath → Err
  not_exist : FilePath → Err
  bad_state bad_archive bad_metadata_kind : Text → Err
  config_required config_init_written config_exists : FilePath → Err
  dest_required : Err
  missing_token : Text → Err
  ambiguous_token : Err
  token_command_failed : Text → Err
  unknown_kind : Text → Err
  no_home : Err
  git_not_found git_lfs_not_found : Err
  release_asset_too_large : Err
  unexpected_status : ℕ → Err
  unauthenticated_redirect : Err
  missing_repo_scope : Err
  external : Text → Err
  wrap : Text → Err → Err

-- `errors.Is(err, os.ErrNotExist)`
unfoldable pub is_not_exist : Err → Bool
is_not_exist (not_exist _) = true
is_not_exist (wrap _ e) = is_not_exist e
is_not_exist _ = false

pub data Result {ℓ} (A : Type ℓ) : Type ℓ where
  ok : A → Result A
  err : Err → Result A
