-- ===== src/Cli/Archive.antt =====
-- `archiveCommandCore` of cli/archive.go and the functions that it calls.
pub mod Safety
pub mod Effects
pub mod Success
pub mod Again
use wtp.Base.{ℕ, Bool, true, false, ◌||◌, Option, none, some, List, [], ◌∷◌, if◌then◌else◌}
use wtp.Base.Result.{Result, ok, err, ◌>>=◌}
use wtp.Base.Text.{Str, str, ◌==◌}
use wtp.FilePath.{abs, is_path_within}
use wtp.Git.{Worktree}
use wtp.Remote.{RepoIdentifier, state_key}
use wtp.Command.{Executor}
use wtp.Store.{Codec, Disk, Faults, StoreError}
use wtp.State.{WorktreeState, State, entry_at, load_state, is_archived}
use wtp.State.Archiving.{World, perform_archive}
use wtp.Cli.Resolver.{NotFound, resolve_worktree_path_by_name, is_main_name}

-- `gitQuerier`: questions to git, which leave the repository as it is.
pub record Queries (G : Type 0) : Type 0 where
  pub is_worktree_dirty : Str → G → Result Str Bool
  pub has_unpushed_commits : Str → G → Result Str Bool
  pub commit_exists : Str → G → Result Str Bool
  pub branch_exists : Str → G → Result Str Bool

pub data ArchiveError : Type 0 where
  main_worktree current_worktree path_unresolved uncommitted_changes unpushed_commits : ArchiveError
  not_printed : ArchiveError
  not_found : NotFound → ArchiveError
  no_target : Str → ArchiveError
  status_failed : Str → ArchiveError
  load_failed record_failed : StoreError → ArchiveError

-- The first worktree at a path.
unfoldable pub at_path : Str → List Worktree → Option Worktree
at_path path [] = none
at_path path (wt ∷ wts) = let rest = at_path path wts in if wt.path == path then some wt else rest

-- The checks of `findArchiveTarget` on the worktree that was found. `pwd` is the working directory
-- of the process, from which `filepath.Abs` starts.
not_current : Worktree → Option Str → Option Str → Result ArchiveError Worktree
not_current wt none cwd = err path_unresolved
not_current wt (some target) none = err path_unresolved
not_current wt (some target) (some cwd) =
    if is_path_within target cwd then err current_worktree else ok wt

usable : Option Str → Str → Str → Option Worktree → Result ArchiveError Worktree
unfolding not_current
usable pwd branch cwd none = err (no_target branch)
usable pwd branch cwd (some wt) =
    if wt.is_main then err main_worktree else not_current wt (abs pwd wt.path) (abs pwd cwd)

found_path : Result NotFound Str → Result ArchiveError Str
found_path (ok path) = ok path
found_path (err e) = err (not_found e)

unfoldable pub find_archive_target :
    Option Str → Str → Str → List Worktree → Result ArchiveError Worktree
unfolding usable found_path
find_archive_target pwd branch cwd worktrees =
    found_path (resolve_worktree_path_by_name branch worktrees) >>= λ path.
    usable pwd branch cwd (at_path path worktrees)

-- An error of the second question is passed over: "no upstream configured".
unpushed : Result Str Bool → Bool
unpushed (ok answer) = answer
unpushed (err e) = false

module _ {G : Type 0} (queries : Queries G) where
  clean_status : Worktree → G → Result Str Bool → Result ArchiveError (Unit {0})
  unfolding unpushed
  clean_status wt g (err e) = err (status_failed e)
  clean_status wt g (ok dirty) =
      if dirty
      then err uncommitted_changes
      else if unpushed (queries.has_unpushed_commits wt.branch g)
      then err unpushed_commits
      else ok tt

  unfoldable pub validate_archive_safety : Worktree → Bool → G → Result ArchiveError (Unit {0})
  unfolding clean_status
  validate_archive_safety wt force g =
      if force then ok tt else clean_status wt g (queries.is_worktree_dirty wt.path g)

  abbrev pub fresh_state : ℕ → Worktree → WorktreeState
  fresh_state now wt = record {
    archived = true;
    archived_at = now;
    pr_closed_at = 0;
    commit_sha = wt.head;
    branch = wt.branch;
    worktree_path = wt.path;
    suppress_auto_archive = false;
  }

  module _ (codec : Codec State) where
    existing : Str → Result StoreError State → Result ArchiveError WorktreeState
    existing key (err e) = err (load_failed e)
    existing key (ok st) = ok (entry_at st key)

    pub fresh :
        Option Str → ℕ → Str → Str → Bool → List Worktree → G → Result ArchiveError WorktreeState
    fresh pwd now branch cwd force worktrees g =
        find_archive_target pwd branch cwd worktrees >>= λ wt.
        (validate_archive_safety wt force g >>= λ _. ok (fresh_state now wt))

    unfoldable pub build_archive_state :
        Faults
        → Option Str
        → ℕ
        → Str
        → Str
        → Str
        → Bool
        → List Worktree
        → World G
        → Result ArchiveError WorktreeState
    unfolding existing fresh
    build_archive_state faults pwd now key branch cwd force worktrees w =
        if is_archived codec key faults w.disk
        then existing key (load_state codec faults w.disk)
        else fresh pwd now branch cwd force worktrees w.git

    module _ (execute : Executor G) where
      performed : Result StoreError Bool × World G → Result ArchiveError Bool × World G
      performed (err e, w) = (err (record_failed e), w)
      performed (ok clean, w) = (ok clean, w)

      archive_with :
          Faults
          → Str
          → World G
          → Result ArchiveError WorktreeState
          → Result ArchiveError Bool × World G
      unfolding performed
      archive_with faults key w (err e) = (err e, w)
      archive_with faults key w (ok ws) =
          performed (
            perform_archive execute codec faults key (record ws { suppress_auto_archive = false })
              w)

      -- `archiveCommandCore` up to its message.
      unfoldable pub archive_unreported :
          Faults
          → Option Str
          → ℕ
          → Str
          → Str
          → Bool
          → List Worktree
          → RepoIdentifier
          → World G
          → Result ArchiveError Bool × World G
      unfolding archive_with
      archive_unreported faults pwd now branch cwd force worktrees repo_id w =
          if is_main_name branch
          then (err main_worktree, w)
          else archive_with faults (state_key repo_id branch) w (
              build_archive_state faults pwd now (state_key repo_id branch) branch cwd force
                worktrees w)

      -- The message is printed when all is done. If it cannot be, that is an error of the command.
      told : Bool → Result ArchiveError Bool × World G → Result ArchiveError Bool × World G
      told can_print (err e, w) = (err e, w)
      told can_print (ok clean, w) = (if can_print then ok clean else err not_printed, w)

      -- `archiveCommandCore`: whether the cleanup was complete, which decides the message.
      unfoldable pub archive_command_core :
          Bool
          → Faults
          → Option Str
          → ℕ
          → Str
          → Str
          → Bool
          → List Worktree
          → RepoIdentifier
          → World G
          → Result ArchiveError Bool × World G
      unfolding told archive_unreported
      archive_command_core can_print faults pwd now branch cwd force worktrees repo_id w =
          told can_print (archive_unreported faults pwd now branch cwd force worktrees repo_id w)
