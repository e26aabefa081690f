-- ===== src/Tests/Config.antt =====
-- Tests of internal/backup/config.go, and its theorems at sample data.
use backup_git_repos.Base.{text, [], ◌∷◌, ◌≡◌, ◌↔◌, refl, inr, false, some, list_beq, cut_suffix}
use backup_git_repos.Error.{ok, err, wrap, unknown_kind}
use backup_git_repos.Config.{
  ForgeConfig, Config, decode_config, resolve_token, resolve_forge, known_forge_kind, is_set,
  trim_newline, run_token_command,
}
use backup_git_repos.Config.Tokens.{AllResolved, IsResolved, by_literal, decode_config_iff}
use backup_git_repos.Tests.{sample_env}

abbrev pub forge_raw : ForgeConfig
forge_raw = record {
  name = text "a";
  kind = text "github";
  url = [];
  token_env = [];
  token_literal = text "t";
  token_command = [];
  token = [];
  skip_mirrors = false;
}

abbrev pub forge_done : ForgeConfig
forge_done = record forge_raw { token = text "t" }

abbrev pub forge_odd : ForgeConfig
forge_odd = record forge_raw { name = text "b"; kind = text "svn" }

abbrev pub config_raw : Config
config_raw = record { dest = text "/b"; forges = forge_raw ∷ [] }

abbrev config_done : Config
config_done = record { dest = text "/b"; forges = forge_done ∷ [] }

forge-IsResolved : IsResolved sample_env forge_raw forge_done
forge-IsResolved = record {
  known = inr (inr refl);
  resolved = by_literal refl refl (λ h. cc h) refl;
  unchanged = refl;
}

command_token :
    resolve_token sample_env (record forge_raw { token_command = text "pass" }) ≡ ok (text "secret")
unfolding resolve_token is_set list_beq run_token_command trim_newline cut_suffix
command_token = refl

odd_refused : resolve_forge sample_env forge_odd ≡ err (wrap (text "b") (unknown_kind (text "svn")))
unfolding resolve_forge known_forge_kind list_beq
odd_refused = refl

decode_config_iff_example :
    (decode_config (λ bytes. some config_raw) sample_env (text "yaml") ≡ ok config_done)
    ↔ (AllResolved sample_env (forge_raw ∷ []) (forge_done ∷ []) × (text "/b" ≡ text "/b"))
decode_config_iff_example =
    decode_config_iff (λ bytes. some config_raw) sample_env (text "yaml") config_raw config_done
      refl
