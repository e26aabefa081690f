-- ===== src/Config.antt =====
-- internal/backup/config.go: the configuration file. The YAML decoder is a parameter.
pub mod Tokens
use backup_git_repos.Base.{
  Text, text, List, [], ◌∷◌, Option, none, some, Bool, true, false, not, ◌&&◌, ◌||◌, ◌==◌, nat_eq,
  list_eq, list_beq, cut_suffix, if◌then◌else◌,
}
use backup_git_repos.FilePath.{FilePath}
use backup_git_repos.Error.{
  Err, Result, ok, err, wrap, missing_token, ambiguous_token, token_command_failed, unknown_kind,
  external,
}
use backup_git_repos.Error.Steps
use backup_git_repos.World.{World, Env, Io, wrapping, settle, ◌>>=◌, read_file}

pub record ForgeConfig : Type 0 where
  pub name : Text
  pub kind : Text
  pub url : Text
  pub token_env : Text
  pub token_literal : Text
  pub token_command : Text
  pub token : Text
  pub skip_mirrors : Bool

pub record Config : Type 0 where
  pub dest : Text
  pub forges : List ForgeConfig

-- `knownForgeKinds`
unfoldable pub known_forge_kind : Text → Bool
known_forge_kind kind = kind == text "forgejo" || kind == text "gitlab" || kind == text "github"

-- `os.LookupEnv`
unfoldable pub lookup_env : Text → List (Text × Text) → Option Text
lookup_env name [] = none
lookup_env name ((k, v) ∷ vars) = if k == name then some v else lookup_env name vars

-- `strings.TrimSuffix(out, "\n")`
unfoldable pub trim_newline : Text → Text
trim_newline s = elim (cut_suffix s (10 ∷ [])) [ none ↦ s | some r ↦ r ]

-- `sh -c` is `Env.shell`: what the command prints, or none where it fails. What else it does is not
-- modelled.
unfoldable pub run_token_command : Env → Text → Result Text
run_token_command env command = elim (env.shell command) [
  | none ↦ err (token_command_failed command)
  | some out ↦ ok (trim_newline out)
]

unfoldable pub is_set : Text → Bool
is_set s = not (s == [])

unfoldable pub resolve_token : Env → ForgeConfig → Result Text
resolve_token env f =
    if is_set f.token_command
    then run_token_command env f.token_command
    else if is_set f.token_literal && is_set f.token_env
    then err ambiguous_token
    else if is_set f.token_literal
    then ok f.token_literal
    else elim (lookup_env f.token_env env.variables) [
      | none ↦ err (missing_token f.token_env)
      | some token ↦ ok token
    ]

-- One round of the loop of `LoadConfig`.
unfoldable pub resolve_forge : Env → ForgeConfig → Result ForgeConfig
resolve_forge env f =
    if known_forge_kind f.kind
    then elim (resolve_token env f) [
      | ok token ↦ ok (record f { token = token })
      | err e ↦ err (wrap f.name e)
    ]
    else err (wrap f.name (unknown_kind f.kind))

unfoldable pub resolve_forges : Env → List ForgeConfig → Result (List ForgeConfig)
resolve_forges env [] = ok []
resolve_forges env (f ∷ fs) =
    let rest = resolve_forges env fs in
    Steps.◌>>=◌ (resolve_forge env f) λ g. Steps.◌>>=◌ rest λ gs. ok (g ∷ gs)

-- What the decoder makes of the file's bytes, if it accepts them.
module _ (decode : Text → Option Config) where
  unfoldable pub decode_config : Env → Text → Result Config
  decode_config env bytes = elim (decode bytes) [
    | none ↦ err (wrap (text "load config") (external (text "yaml")))
    | some cfg ↦
        Steps.◌>>=◌ (resolve_forges env cfg.forges) λ forges. ok (record cfg { forges = forges })
  ]

  unfoldable pub load_config : FilePath → Io Config
  load_config path = do
    bytes ← wrapping (text "load config") (read_file path)
    λ w. (decode_config w.env bytes, w)
