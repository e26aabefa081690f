-- ===== src/Mirror/Environment.antt =====
-- internal/backup/mirror.go: the environment that git runs in, `credentialEnv` and `gitEnv`.
use backup_git_repos.Base.{
  Text, text, [], ◌∷◌, ◌++◌, ◌≡◌, Option, none, some, Bool, true, false, ◌||◌, ◌==◌, nat_eq,
  list_eq, if◌then◌else◌,
}
use backup_git_repos.World.{Env}
use backup_git_repos.Run.Types.{Remote}
use backup_git_repos.Mirror.{Tools, Variables, is_hook_variable}

-- What a process finds under a name: the last value given for it.
unfoldable pub effective : Text → Variables → Option Text
effective name [] = none
effective name ((k, v) ∷ vars) = elim (effective name vars) [
  | some u ↦ some u
  | none ↦ if k == name then some v else none
]

-- The names that are added to the environment.
unfoldable pub is_added : Text → Bool
is_added name =
    text "GIT_TERMINAL_PROMPT" == name
    || text "GIT_CONFIG_COUNT" == name
    || text "GIT_CONFIG_KEY_0" == name
    || text "GIT_CONFIG_VALUE_0" == name

abbrev later_or : Option Text → Option Text → Option Text
later_or later earlier = elim later [ some u ↦ some u | none ↦ earlier ]

-- The configuration that git finds in its environment: one entry, the header for one host.
pub record SendsHeader (scheme host header : Text) (vars : Variables) : Type 0 where
  pub count : effective (text "GIT_CONFIG_COUNT") vars ≡ some (text "1")
  pub key :
      effective (text "GIT_CONFIG_KEY_0") vars
      ≡ some (text "http." ++ (scheme ++ (text "://" ++ (host ++ text "/.extraHeader"))))
  pub value : effective (text "GIT_CONFIG_VALUE_0") vars ≡ some (text "Authorization: " ++ header)

-- What git finds in its environment.
pub record RunsWith (tools : Tools) (env : Env) (r : Remote) (vars : Variables) : Type 0 where
  pub no_prompt : effective (text "GIT_TERMINAL_PROMPT") vars ≡ some (text "0")
  pub no_hook : (name : Text) → is_hook_variable name ≡ true → effective name vars ≡ none
  pub others :
      (name : Text)
      → is_hook_variable name ≡ false
      → is_added name ≡ false
      → effective name vars ≡ effective name env.variables
  pub header :
      (r.auth_header == []) ≡ false
      → (scheme : Text) × (host : Text) × (tools.parse_url r.clone_url ≡ some (scheme, host))
        × SendsHeader scheme host r.auth_header vars

prompt_off : Variables
prompt_off = (text "GIT_TERMINAL_PROMPT", text "0") ∷ []
