-- ===== src/Cli/Archive/Again.antt =====
-- `wtp archive` of a branch that the state file says is archived: the retry.
use wtp.Base.{if◌then◌else◌, ℕ, ◌≡◌, refl, Bool, true, false, Option, List, [], ◌∷◌}
use wtp.Base.Result.{Result, ok, err}
use wtp.Base.Text.{Str, ◌==◌}
use wtp.Git.{Worktree}
use wtp.Remote.{RepoIdentifier, state_key}
use wtp.Command.{Executor, git_worktree_remove, git_branch_force_delete}
use wtp.Store.{Codec}
use wtp.Store.Atomic.{no_faults}
use wtp.Store.Success.{IsTotal, written}
use wtp.State.{WorktreeState, State, entry_at, put, load_state, is_archived}
use wtp.State.Archiving.{World, cleanup, perform_archive}
use wtp.State.Archiving.Success.{perform_archive-written, cleanup-git, cleanup-disk}
use wtp.Cli.Resolver.{is_main_name}
use wtp.Cli.Archive.{Queries, ArchiveError, existing, build_archive_state, archive_with, performed}
use wtp.Cli.Archive.{archive_command_core, archive_unreported, told, not_printed}

module _ {G : Type 0} (queries : Queries G) (codec : Codec State) (total : IsTotal codec)
    (execute : Executor G) (pwd : Option Str) (now : ℕ) (branch cwd : Str) (force : Bool)
    (worktrees : List Worktree) (repo_id : RepoIdentifier) (w : World G) (st : State)
    (can_print : Bool) where
  abbrev pub run_again : Result ArchiveError Bool × World G
  run_again =
      archive_command_core queries codec execute can_print no_faults pwd now branch cwd force
        worktrees repo_id w

  -- The entry, and the world in which it has been written again.
  abbrev pub entry_again : WorktreeState
  entry_again = record (entry_at st (state_key repo_id branch)) { suppress_auto_archive = false }

  abbrev pub world_again : World G
  world_again = record w {
    disk = written codec total (put (state_key repo_id branch) entry_again st);
  }

  is_archived-true :
      load_state codec no_faults w.disk ≡ ok st
      → (entry_at st (state_key repo_id branch)).archived ≡ true
      → is_archived codec (state_key repo_id branch) no_faults w.disk ≡ true
  unfolding is_archived
  is_archived-true l archived = rw (l, is_archived) archived

  build_archive_state-existing :
      load_state codec no_faults w.disk ≡ ok st
      → (entry_at st (state_key repo_id branch)).archived ≡ true
      → build_archive_state queries codec no_faults pwd now
          (state_key repo_id branch)
          branch
          cwd
          force
          worktrees
          w
        ≡ ok (entry_at st (state_key repo_id branch))
  unfolding build_archive_state existing
  build_archive_state-existing l archived = rw (is_archived-true l archived, l)

  -- Where nothing in the file system fails, a branch that the state file has as archived, with a path
  -- and a branch, is archived again as it was recorded: the entry is written as it is, and git is
  -- asked to remove the recorded path and branch by force. This holds whatever git says of changes
  -- that are not committed or pushed, whether or not `--force` is given, and wherever the working
  -- directory is. The command succeeds exactly if its message can be printed after that.
  pub archive_command_core-again :
      is_main_name branch ≡ false
      → load_state codec no_faults w.disk ≡ ok st
      → (entry_at st (state_key repo_id branch)).archived ≡ true
      → (entry_again.worktree_path == []) ≡ false
      → (entry_again.branch == []) ≡ false
      → (run_again.0
          ≡ (if can_print then ok (cleanup execute entry_again world_again).0 else err not_printed))
        × (run_again.1.disk ≡ world_again.disk)
        × (run_again.1.git
            ≡ (execute
                (git_branch_force_delete entry_again.branch ∷ [])
                (execute (git_worktree_remove entry_again.worktree_path true ∷ []) w.git).1).1)
  unfolding archive_command_core archive_unreported told archive_with performed
  archive_command_core-again named l archived path named_branch =
      let same : run_again
          ≡ told queries codec execute can_print (
              performed queries codec execute (
                perform_archive execute codec no_faults (state_key repo_id branch) entry_again w)) =
        rw (named, build_archive_state-existing l archived) in
      rw
        (
          same,
          perform_archive-written codec total execute (state_key repo_id branch) entry_again w st l,
        )
        (
          refl,
          cleanup-disk codec total execute entry_again world_again,
          cleanup-git codec total execute entry_again world_again path named_branch,
        )
