-- ===== src/Mirror.antt =====
-- internal/backup/mirror.go and mirror_lfs.go: a bare mirror kept up to date by git. The processes
-- that are started (git, git-lfs) and `url.Parse` are a parameter, `Tools`.
pub mod Atomic
pub mod Confined
pub mod Environment
pub mod Lfs
use backup_git_repos.Base.{
  Text, text, ℕ, List, [], ◌∷◌, ◌++◌, reverse, Option, none, some, Bool, true, false, ◌&&◌, ◌||◌,
  ◌==◌, nat_eq, list_eq, list_beq, leb, split_on, if◌then◌else◌,
}
use backup_git_repos.FilePath.{FilePath, with_suffix}
use backup_git_repos.Error.{Err, Result, ok, err, wrap, git_not_found, git_lfs_not_found, external}
use backup_git_repos.World.{
  World, Env, Io, pure, wrapping, settle, ◌>>=◌, ◌>>◌, stat, remove_all, rename,
}
use backup_git_repos.Run.Types.{Remote}

-- The environment of a process: names with their values.
abbrev pub Variables : Type 0
Variables = List (Text × Text)

-- How `git grep --quiet` ends.
pub data GrepExit : Type 0 where
  found no_match failed : GrepExit

pub record Tools : Type 0 where
  -- The scheme and the host of a URL.
  pub parse_url : Text → Option (Text × Text)
  -- `git clone --mirror URL DIR`
  pub git_clone : Variables → Text → FilePath → Io (Unit {0})
  -- `git -C DIR remote update --prune`
  pub git_update : Variables → FilePath → Io (Unit {0})
  -- `git -C DIR for-each-ref --format=%(objectname)`
  pub git_refs : Variables → FilePath → Io Text
  -- `git -C DIR grep --quiet -e filter=lfs REFS -- :(glob)**/.gitattributes`
  pub git_grep : Variables → FilePath → List Text → World → GrepExit × World
  -- `git-lfs fetch --all` in DIR
  pub lfs_fetch : Variables → FilePath → Io (Unit {0})

-- `Mirror`: the paths of git and git-lfs, empty for those on PATH.
pub record Mirror : Type 0 where
  pub git_path : Text
  pub git_lfs_path : Text

unfoldable pub find_tool : Text → Text → Err → Env → Result FilePath
find_tool given name missing env =
    if given == []
    then elim (env.look_path name) [ none ↦ err missing | some path ↦ ok path ]
    else ok (given ∷ [])

-- The three variables that git sets for a hook's process.
unfoldable pub is_hook_variable : Text → Bool
is_hook_variable name =
    name == text "GIT_DIR" || name == text "GIT_WORK_TREE" || name == text "GIT_INDEX_FILE"

unfoldable pub strip_hook_variables : Variables → Variables
strip_hook_variables [] = []
strip_hook_variables ((name, value) ∷ vars) =
    let rest = strip_hook_variables vars in
    if is_hook_variable name then rest else (name, value) ∷ rest

unfoldable pub git_env : Env → Variables
git_env env = strip_hook_variables env.variables

-- The header, scoped to the remote's own scheme and host.
unfoldable pub header_variables : Text → Text → Text → Variables
header_variables scheme host header =
    (text "GIT_CONFIG_COUNT", text "1")
    ∷ (
      text "GIT_CONFIG_KEY_0",
      text "http." ++ (scheme ++ (text "://" ++ (host ++ text "/.extraHeader"))),
    )
    ∷ (text "GIT_CONFIG_VALUE_0", text "Authorization: " ++ header)
    ∷ []

-- `strings.TrimSpace` on ASCII.
unfoldable pub is_space : ℕ → Bool
is_space c = c == 32 || (leb 9 c && leb c 13)

unfoldable pub trim_left : Text → Text
trim_left [] = []
trim_left (c ∷ s) = if is_space c then trim_left s else c ∷ s

unfoldable pub trim_space : Text → Text
trim_space s = reverse (trim_left (reverse (trim_left s)))

module _ (tools : Tools) where
  unfoldable pub credential_env : Remote → Env → Result Variables
  credential_env r env =
      let vars = git_env env ++ (text "GIT_TERMINAL_PROMPT", text "0") ∷ [] in
      if r.auth_header == [] then ok vars else elim (tools.parse_url r.clone_url) [
        | none ↦ err (wrap (text "parse clone url") (external (text "url")))
        | some (scheme, host) ↦ ok (vars ++ header_variables scheme host r.auth_header)
      ]

  -- A value that only the environment of the process decides.
  abbrev asked {ℓ} : {A : Type ℓ} → (Env → Result A) → Io A
  asked f w = (f w.env, w)

  -- The clone goes beside the mirror, and takes its place once it is whole.
  unfoldable pub clone : Remote → FilePath → Io (Unit {0})
  clone r dir = wrapping (text "mirror clone") (do
    remove_all (with_suffix dir (text ".partial"))
    vars ← asked (credential_env r)
    tools.git_clone vars r.clone_url (with_suffix dir (text ".partial"))
    rename (with_suffix dir (text ".partial")) dir)

  unfoldable pub update : Remote → FilePath → Io (Unit {0})
  update r dir =
      wrapping (text "mirror update")
        (do vars ← asked (credential_env r); tools.git_update vars dir)

  -- The commits that the refs of a mirror point at.
  unfoldable pub ref_tips : FilePath → Io (List Text)
  ref_tips dir = do
    out ← wrapping (text "list refs") (λ w. tools.git_refs (git_env w.env) dir w)
    pure (if trim_space out == [] then [] else split_on 10 (trim_space out))

  unfoldable pub grep_lfs : FilePath → List Text → Io Bool
  grep_lfs dir [] w = (ok false, w)
  grep_lfs dir (ref ∷ refs) w =
      let (exit, w') = tools.git_grep (git_env w.env) dir (ref ∷ refs) w in
      elim exit [
        | found ↦ (ok true, w')
        | no_match ↦ (ok false, w')
        | failed ↦ (err (wrap (text "check lfs usage") (external (text "git grep"))), w')
      ]

  unfoldable pub uses_lfs : FilePath → Io Bool
  uses_lfs dir = do refs ← ref_tips dir; grep_lfs dir refs

  unfoldable pub fetch_lfs : Mirror → Remote → FilePath → Bool → Io (Unit {0})
  fetch_lfs m r dir false = pure tt
  fetch_lfs m r dir true = do
    asked (find_tool m.git_lfs_path (text "git-lfs") git_lfs_not_found)
    vars ← asked (credential_env r)
    tools.lfs_fetch vars dir

  unfoldable pub sync_lfs : Mirror → Remote → FilePath → Io (Unit {0})
  sync_lfs m r dir = wrapping (text "mirror lfs") (do uses ← uses_lfs dir; fetch_lfs m r dir uses)

  -- Whether a mirror stands at a path already: its HEAD does.
  unfoldable pub has_head : FilePath → World → Bool
  has_head dir w = elim (stat (dir ++ text "HEAD" ∷ []) w).0 [ ok n ↦ true | err e ↦ false ]

  unfoldable pub refresh : Remote → FilePath → Io (Unit {0})
  refresh r dir w = if has_head dir w then update r dir w else clone r dir w

  unfoldable pub sync : Mirror → Remote → FilePath → Io (Unit {0})
  sync m r dir = do
    asked (find_tool m.git_path (text "git") git_not_found)
    refresh r dir
    sync_lfs m r dir
