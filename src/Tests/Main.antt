-- ===== src/Tests/Main.antt =====
-- Tests of cmd/backup-git-repos/main.go and of the values of the flags.
use backup_git_repos.Base.{text, [], none, ◌≡◌, refl, some, false}
use backup_git_repos.Error.{ok}
use backup_git_repos.Repo.{state_active, state_text, parse_state}
use backup_git_repos.Repo.Flags.{parse_state-state_text}
use backup_git_repos.Main.{Adapters, new_runner}
use backup_git_repos.Main.Reads.{reading_commands-keep}
use backup_git_repos.Cli.{run_backup}
use backup_git_repos.Tests.{sample_world, sample_fs}
use backup_git_repos.Tests.Config.{config_raw}
use backup_git_repos.Tests.Flags.{
  sample_viper, sample_flags, sample_cli, no_console, config_path, config_found, dry_run_now,
}
use backup_git_repos.Tests.Metadata.{sample_encoders}
use backup_git_repos.Tests.Mirror.{failing_tools}
use backup_git_repos.Tests.Forge.{paging_web, github_decode, forgejo_decode, gitlab_decoders}

abbrev pub sample_adapters : Adapters
sample_adapters = record {
  web = paging_web 200 [];
  tools = failing_tools;
  forgejo_items = forgejo_decode;
  github_items = github_decode;
  gitlab_decoders = gitlab_decoders;
  encoders = sample_encoders;
  forgejo_exports = record {
    issues = record { issues = λ body. none; comments = λ body. none };
    releases = λ body. none;
    pull_requests = record {
      pulls = λ body. none;
      reviews = λ body. none;
      review_comments = λ body. none;
    };
  };
  gitlab_exports = record {
    issues = record { issues = λ body. none; notes = λ body. none };
    releases = λ body. none;
    pull_requests = record { merge_requests = λ body. none; discussions = λ body. none };
  };
  github_exports = record {
    issues = record { issues = λ body. none; comments = λ body. none };
    releases = λ body. none;
    pull_requests = record { pulls = λ body. none; review_comments = λ body. none };
  };
  fuel = 100;
}

parse_state-state_text_example : parse_state (text "active") ≡ ok state_active
unfolding state_text
parse_state-state_text_example = parse_state-state_text state_active

-- A dry run over a configuration of one forge on GitHub.
reading_commands-keep_example :
    (run_backup
      (λ bytes. some config_raw)
      sample_viper
      (new_runner sample_adapters)
      no_console
      sample_cli
      sample_flags
      false
      sample_world).1.fs
    ≡ sample_fs
reading_commands-keep_example =
    reading_commands-keep sample_adapters (λ bytes. some config_raw) sample_viper no_console
      sample_cli sample_flags false config_path sample_world
      (λ q request. record { at = λ w. (refl, refl) }) config_found dry_run_now
