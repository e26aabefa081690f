-- ===== src/Cli/Init.antt =====
-- internal/backup/cli_config.go: `config init`, and the question that offers it.
pub mod Writes
use backup_git_repos.Base.{
  Text, text, ℕ, ◌+◌, List, [], ◌∷◌, ◌++◌, Bool, true, false, ◌==◌, ◌&&◌, ◌||◌, list_eq, nat_eq,
  list_beq, leb, join_with, if◌then◌else◌,
}
use backup_git_repos.FilePath.{FilePath, dir_of}
use backup_git_repos.Error.{Err, Result, ok, err, wrap, is_not_exist, config_exists}
use backup_git_repos.World.{
  World, Io, Line, line, pure, fail, wrapping, wrap_result, settle, ◌>>=◌, ◌>>◌, stat, mkdir_all,
  write_file, print_line,
}
use backup_git_repos.Mirror.{trim_space}
use backup_git_repos.Cli.Paths.{CliFlags, given, config_init_path}

-- The terminal: whether it is interactive, and the line that is read from it.
pub record Console : Type 0 where
  pub interactive : Bool
  pub answer : Result Text

-- A path as it is printed.
abbrev pub shown : FilePath → Text
shown path = text "/" ++ join_with b'/' path

unfoldable pub lower : ℕ → ℕ
lower c = if leb 65 c && leb c 90 then c + 32 else c

abbrev pub printing : Text → Io (Unit {0})
printing s w = (ok tt, print_line (line s) w)

-- Whether `config init` may write at a path.
unfoldable pub may_write : Bool → FilePath → Io (Unit {0})
may_write true path w = (ok tt, w)
may_write false path w =
    settle (stat path w).0
      (λ e. if is_not_exist e then (ok tt, w) else (err (wrap (text "stat") e), w))
      (λ n. (err (config_exists path), w))

-- `exampleConfig`, a line each.
abbrev pub example_lines : List Text
example_lines =
    text "# backup-git-repos config. See:"
    ∷ text "# https://github.com/alrayyes/backup-git-repos#configuration"
    ∷ text "dest: /srv/backups/git"
    ∷ []
    ∷ text "forges: []"
    ∷ text "# forges:"
    ∷ text "#   - name: work # becomes the top-level folder for this forge's repos"
    ∷ text "#     kind: gitlab # forgejo, gitlab, or github"
    ∷ text "#     url: https://gitlab.example.com # omit for github"
    ∷ text "#     token: paste-your-token-here"
    ∷ text
        "#     token_command: pass show work/gitlab-token # or hush-hush get <key>, an age-encrypted file, a keyring CLI"
    ∷ []

unfoldable pub unlines : List Text → Text
unlines [] = []
unlines (l ∷ ls) = l ++ 10 ∷ unlines ls

unfoldable pub example_config : Text
example_config = unlines example_lines

-- What both commands do once the path is known: the starter file is written with its directory.
unfoldable pub write_config : FilePath → Io (Unit {0})
write_config path = do
  wrapping (text "create") (mkdir_all (dir_of path))
  wrapping (text "write") (write_file path example_config)
  printing (text "wrote config to " ++ shown path)

unfoldable pub run_config_init : CliFlags → Bool → Io (Unit {0})
run_config_init flags force = do
  path ← given (config_init_path flags)
  may_write force path
  write_config path

-- `strings.EqualFold` against lower-case letters: the case of ASCII letters, and the long s.
unfoldable pub fold : Text → Text
fold [] = []
fold (c ∷ []) = lower c ∷ []
fold (c ∷ d ∷ s) =
    let two = fold s in
    let one = fold (d ∷ s) in if c == 197 && d == 191 then b's' ∷ two else lower c ∷ one

unfoldable pub is_yes : Text → Bool
is_yes answer = fold answer == text "y" || fold answer == text "yes"

unfoldable pub write_if : CliFlags → Bool → Io Bool
write_if flags false = pure false
write_if flags true = do run_config_init flags false; pure true

unfoldable pub prompt_config_init : Console → CliFlags → FilePath → Io Bool
prompt_config_init console flags path = do
  printing (text "no config file found at " ++ shown path)
  printing (text "run `config init` now? [y/N] ")
  typed ← given (λ env. wrap_result (text "read answer") console.answer)
  write_if flags (is_yes (trim_space typed))
