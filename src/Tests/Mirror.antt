-- ===== src/Tests/Mirror.antt =====
-- The theorems on internal/backup/mirror.go and mirror_lfs.go at sample data.
use backup_git_repos.Base.{Text, text, List, [], ◌∷◌, ◌≡◌, refl, some, none, list_beq, split_on}
use backup_git_repos.FilePath.{FilePath, with_suffix}
use backup_git_repos.Fs.{get, alter, find, set_entry, put_entry, remove_entry}
use backup_git_repos.Error.{Result, ok, err, wrap, external, git_lfs_not_found}
use backup_git_repos.World
use backup_git_repos.World.{World, Env, Io, pure, fail}
use backup_git_repos.Run.Types.{Remote}
use backup_git_repos.Mirror
use backup_git_repos.Mirror.{
  Tools, Mirror, found, no_match, clone, credential_env, git_env, header_variables, uses_lfs,
  sync_lfs, ref_tips, grep_lfs, find_tool,
}
use backup_git_repos.Mirror.Atomic.{ClonesInPlace, clone_failed}
use backup_git_repos.Tests.{sample_env, sample_world, sample_fs}

-- Processes of a git whose clones fail and whose repositories have no ref.
abbrev pub failing_tools : Tools
failing_tools = record {
  parse_url = λ url. some (text "https", text "forge");
  git_clone = λ vars url path. fail (external (text "git"));
  git_update = λ vars path. pure tt;
  git_refs = λ vars path. pure [];
  git_grep = λ vars path refs w. (no_match, w);
  lfs_fetch = λ vars path. pure tt;
}

-- Processes of a git whose repositories use LFS.
abbrev lfs_tools : Tools
lfs_tools = record failing_tools {
  git_refs = λ vars path. pure (text "c0");
  git_grep = λ vars path refs w. (found, w);
}

abbrev pub remote_x : Remote
remote_x = record { clone_url = text "https://forge/x.git"; auth_header = text "Basic eA==" }

abbrev x_dir : FilePath
x_dir = text "b" ∷ text "f" ∷ text "x.git" ∷ []

failing-in_place : ClonesInPlace failing_tools
failing-in_place vars url path q w apart = refl

clone_x : Result (Unit {0}) × World
unfolding clone World.remove_all World.removable World.rename World.blocked World.missing
    credential_env with_suffix get alter find set_entry put_entry remove_entry list_beq git_env
clone_x = clone failing_tools remote_x x_dir sample_world

clone_x_fails : clone_x.0 ≡ err (wrap (text "mirror clone") (external (text "git")))
unfolding clone_x
clone_x_fails = refl

clone_failed_example : get x_dir clone_x.1.fs ≡ get x_dir sample_fs
unfolding clone_x
clone_failed_example =
    clone_failed failing_tools failing-in_place remote_x x_dir sample_world
      (wrap (text "mirror clone") (external (text "git"))) (λ e. cc e) clone_x_fails

abbrev hook_env : Env
hook_env = record sample_env {
  variables = (text "GIT_DIR", text ".git") ∷ (text "LANG", text "C") ∷ [];
}

hook_variables : Result (List (Text × Text))
unfolding credential_env list_beq git_env Mirror.strip_hook_variables Mirror.is_hook_variable
    header_variables
hook_variables = credential_env failing_tools remote_x hook_env

abbrev plain_mirror : Mirror
plain_mirror = record { git_path = []; git_lfs_path = [] }

abbrev bare_world : World
bare_world = record sample_world { env = record sample_env { look_path = λ name. none } }

abbrev expected_variables : List (Text × Text)
expected_variables =
    (text "LANG", text "C")
    ∷ (text "GIT_TERMINAL_PROMPT", text "0")
    ∷ (text "GIT_CONFIG_COUNT", text "1")
    ∷ (text "GIT_CONFIG_KEY_0", text "http.https://forge/.extraHeader")
    ∷ (text "GIT_CONFIG_VALUE_0", text "Authorization: Basic eA==")
    ∷ []

lfs_refs : ref_tips lfs_tools x_dir bare_world ≡ (ok (text "c0" ∷ []), bare_world)
unfolding ref_tips Mirror.trim_space Mirror.trim_left Mirror.is_space list_beq split_on
lfs_refs = refl

no_git_lfs : find_tool [] (text "git-lfs") git_lfs_not_found bare_world.env ≡ err git_lfs_not_found
unfolding find_tool list_beq
no_git_lfs = refl
