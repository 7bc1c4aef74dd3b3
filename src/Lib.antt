-- ===== src/Lib.antt =====
-- wtp keeps git worktrees in a central place, archives those whose work is done, and brings them
-- back. This library models its decisions and its effects on the state file, the cache file and
-- the repository, and proves what they keep.
--
-- The parts, and the files of this library that model them:
--
-- Remote (internal/remote/parse.go): remote URLs, repository identifiers, storage paths and state
-- keys. Behind `parse` stands `url.Parse`, a parameter. Remote/Keys and Remote/Identifiers hold
-- the theorems.
--
-- Git (internal/git/worktree.go, internal/git/repository.go): worktrees and the two parsers of
-- `git worktree list --porcelain`. Git/Porcelain prints the format that git documents.
-- Git/Branches is what is asked of branches, Git/Repository the other methods of a repository:
-- both stand over a git that is a parameter, a function from its arguments to the end of the
-- process.
--
-- Errors (internal/errors/errors.go): the texts of the messages, in Errors/Wrapped of those that
-- wrap another error. Procenv (internal/procenv/procenv.go, internal/marker/marker.go,
-- internal/xdg/xdg.go): environment variables, the marker by which the shell changes its
-- directory, and the directories of the program.
--
-- Command (internal/command): commands, the builders of git commands, and the executor over a
-- shell, which is a parameter: a function of the command and of the state `G` of the repository.
--
-- Store (internal/state/state.go and internal/cache/cache.go, the same code twice): load, save and
-- locked mutation of a JSON file. encoding/json is a `Codec`; its `decode` includes that a missing
-- map is read as an empty one. `Faults` says which steps of the file system fail. The lock is
-- taken as exclusive: a mutation is one step.
--
-- State (internal/state): the archive state of worktrees. State/Archiving is `PerformArchive`:
-- state first, then the worktree, then the branch. Cache (internal/cache): PR and CI data by state
-- key.
--
-- Github (internal/github/github.go): what is made of gh's answers. FilePath: Go's path/filepath
-- on Unix as far as the program calls it, `isPathWithin` of cli/remove.go and `ensureWithinBase`
-- of internal/hooks/executor.go.
--
-- Cli: the commands of cli/. Cli/Resolver finds worktrees by name (cli/worktree_resolver.go),
-- Cli/Archive and Cli/Unarchive are the cores of cli/archive.go, with the printing of their
-- messages, which may fail, as a last step, Cli/RoundTrip puts the two together, and Cli/Remove is
-- `wtp remove` behind its flags (cli/remove.go): Cli/Remove/Run is the command, Cli/Remove/Cleanup
-- what follows the removal of the worktree. Cli/Add is `wtp add` (cli/add.go): Cli/Add has its
-- decisions and the reading of git's errors, Cli/Add/Create its effects, Cli/Add/Setup what it
-- starts from, and Cli/Completion the branch names that are offered. Cli/List is `wtp list`
-- (cli/list.go): Cli/List/Rows are the rows, Cli/List/Run the command. Cli/Sync is a run of `wtp
-- sync` (cli/sync.go) over any repository state, whose runner, discovery, reaper and lock are
-- parameters; Cli/Sync/Agent is the program that the scheduled agent runs. Cli/Cd is `wtp cd`
-- (cli/cd.go), whose picker is a parameter.
--
-- Maintenance (internal/maintenance/maintenance.go): Reap drops expired archives; Sync archives
-- worktrees whose PR is merged or closed and refreshes the cache. Sync starts with its test for gh
-- and the listing of git; the errors of gh, of git and of the lock stand for themselves: each is a
-- value of a parameter. A listing without a result, at which the code would panic, is the failure
-- `no_results`. The `Faults` of a sync are the same at each of its mutations. Maintenance/Schedule
-- (internal/maintenance/schedule.go) says when a sync is due and who may refresh, and keeps the
-- notices. Maintenance/Discover (internal/maintenance/discover.go) finds the repository of a
-- linked worktree.
--
-- Config (internal/config/config.go): the hooks of a repository, with YAML as a codec, and in
-- Config/Global (internal/config/global.go) the configuration that all repositories share. Hooks
-- (internal/hooks/executor.go): the checks of their paths, in Hooks, and their runs, in Hooks/Run.
-- The file system is a record of functions; the copying of a file or a directory is one of them.
--
-- How the code is read. A Go string is the list of its bytes; `TrimSpace` and `ToLower` are those
-- of ASCII. A map is an association list, and no theorem depends on its order. A time is a number
-- of nanoseconds since the zero time, so that 0 is `time.Time{}`; a retention and an interval are
-- not negative. An error is a constructor; its text, of which Errors has the most, is looked at
-- only where the code searches it. Loops are recursions on the list that they walk over. Two have
-- fuel: `itoa` has one round more than its number, and the climb of
-- `cleanup_centralized_worktree_dir` has as many rounds as the path has bytes, which are more than
-- the directories on the way.
--
-- Not modelled: flags and shell completion of the command-line library, process creation, table
-- rendering, launchd, and the installation of shell hooks. They are input and output, or calls of
-- libraries. Tests holds the theorems at concrete inputs.
pub mod Base
pub mod Cache
pub mod Cli
pub mod Command
pub mod Config
pub mod Errors
pub mod FilePath
pub mod Git
pub mod Github
pub mod Hooks
pub mod Maintenance
pub mod Procenv
pub mod Remote
pub mod State
pub mod Store
pub mod Tests
