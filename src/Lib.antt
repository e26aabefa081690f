-- ===== src/Lib.antt =====
-- backup-git-repos: mirrors the git repositories of GitLab, Forgejo and GitHub to local disk.
--
-- The program has a command line (internal/backup/cli.go, cli_config.go), a configuration file
-- (config.go), a run over one forge (run.go, repo.go), a bare mirror kept by git (mirror.go,
-- mirror_lfs.go), archives of mirrors (archive.go), exported metadata (metadata.go) and an adapter
-- for each forge (internal/github, internal/gitlab, internal/forgejo). The command line builds the
-- options of a run for each configured forge; a run lists the forge's repositories through its
-- adapter, mirrors each one, exports its metadata, writes its archive, and prunes what the forge no
-- longer lists.
--
-- Files:
--   Base, Base/*        Go's strings as bytes, `slices.Sort`, `strings.Split`, tests and lists.
--   FilePath            path/filepath: `Join` with its cleaning, `Base`, `Dir`. A path is the list
--                       of its names from the root.
--   Fs, Fs/*            the file system: a tree of directories, files and symbolic links.
--   Error, Error/*      the errors, `fmt.Errorf` with `%w`, and results.
--   World               the process: the file system, the log, the output, and the calls of package
--                       os. Whether a call is refused is a parameter: every theorem holds for any
--                       pattern of refusals. Below it, Keeps, Reads and Near are what its calls leave.
--   Tar, Archive        archive.go; the encoders of archive/tar and compress/gzip are a parameter.
--   Archive/Atomic, Same, Deterministic, Near   the theorems on it.
--   Repo, Repo/Flags    repo.go, and the values of --state and --archive of cli.go.
--   Metadata            the kinds, directories and names of metadata.go.
--   Metadata/Write      its writers. The JSON encoder is an argument (`Encoders`), and an asset's
--                       reader is its bytes with the error that ends them, if any.
--   Metadata/Names, Metadata/Write/Assets, Numbered, Releases, Stays   the theorems on them.
--   Run/Types           the interfaces, options and results of run.go. `Runner` holds the calls that
--                       an adapter and git implement, as arguments.
--   Run/Scan            `onDiskPaths` and `staleMirrors`.
--   Run/Worker          `mirrorRepo` and `exportMetadata`.
--   Run/Loop            `Run`, the counters and `prune`.
--   Run/Schedule        the workers of `Run` under its errgroup, as a step relation: the loop starts
--                       workers up to the limit, and they end in any order. Run/Loop has the same
--                       work in the order of the listing.
--   Run/Schedule/Limit, Totals, Sequential   the theorems on it.
--   Run/Outcome, Counts, Accounts, Failure, Progress, Stale, Walk, Found, Paths, Prune, Removed,
--   Outside, Outside/Whole   the theorems on them.
--   Config, Config/*    config.go. The YAML decoder is an argument.
--   Mirror              mirror.go and mirror_lfs.go. `Tools` holds the processes of git and git-lfs
--                       and `url.Parse`.
--   Mirror/Atomic, Confined, Environment, Lfs   the theorems on them.
--   Cli/Paths           the flags of cli.go, `expandHome`, `resolveDestPaths`, and the paths of
--                       cli_config.go.
--   Cli/Init            `runConfigInit` and `promptConfigInit` of cli_config.go.
--   Cli/DryRun          `dryRunForge`, `dryRunPrune` and `dryRunAction` of cli.go.
--   Cli/Forge, Cli      `runForge`; `resolveConfigPath` and `runBackup`.
--   Cli/Flags           `buildViper` and `resolvedFlags`. `Viper` holds the calls of viper.
--   Cli/Commands        the commands and their flags: `NewRootCommand` and what it calls.
--   Cli/Logger          `newCLILogger`: which lines of the log reach standard error.
--   Cli/Progress        cli_progress.go.
--   Cli/Init/Writes, Cli/DryRun/Predicts, Cli/DryRun/Action, Cli/Forges, Cli/Flags/Merged,
--   Cli/Progress/Drawn, Cli/Reads   the theorems on them.
--   Forge/Http          the HTTP client, URLs and responses, and internal/httpauth. `Web` holds what
--                       net/http, net/url, strconv and base64 do.
--   Forge/Paging        the loops over pages that the adapters share, which end with a list.
--   Forge/Export        the loops of their exporters, which write each item as soon as its page is
--                       read; Complete, Lands, Assets and Release below it are what they come to,
--                       on a forge that serves a list and on disk.
--   Forge/GitHub, Forge/GitLab, Forge/Forgejo   `ListRepos` and `Remote` of each adapter, and below
--                       them, in Listing, the theorems.
--   Forge/*/Issues, PullRequests, MergeRequests, Releases   the exporters of each adapter (issue.go,
--                       pull_request.go, release.go), with their theorems below them.
--   Forge/Stays         the theorems on what the adapters leave alone: Listing, and an exporter's in the
--                       child of its name.
--   Forge/Exporters     the exporters that `newRunner` gives a runner of each kind.
--   Main                `newRunner` and the exit status of cmd/backup-git-repos/main.go; Kinds, Reads
--                       and Confined below it are the theorems, the last two on the whole program.
--   Tests, Tests/*      tests, and each theorem at concrete data.
--
-- The loops of the source over a list or a tree are structural recursions. The loops over the pages
-- of a forge's answers run on fuel, since a forge need never come to an end; as much fuel as there
-- are pages, or one more than there are items, is enough. Run/Loop mirrors repositories one after
-- another, in the listing's order; the lookups of GitLab's projects are made in the same way.
-- Not modelled: contexts and timeouts (an expired one is an error of a call), file modes, links
-- within a path, what a refused removal has already removed, what a token_command does beside
-- printing and failing (`Env.shell` is its output), how os.MkdirTemp finds a free name (its name is a
-- parameter, and one that is taken is an error), the texts of error messages, how the
-- calls of two workers interleave on disk, signals, and cobra, viper, the YAML and JSON decoders, git
-- and HTTP, which the source calls. A time is the text that is decoded and written of it. A
-- concurrency below zero counts as zero, as it does for the number of workers.
pub mod Base
pub mod FilePath
pub mod Fs
pub mod Error
pub mod Tar
pub mod World
pub mod Archive
pub mod Repo
pub mod Metadata
pub mod Run
pub mod Config
pub mod Mirror
pub mod Cli
pub mod Forge
pub mod Main
mod Tests
