-- ===== src/Cli/Unarchive/Success.antt =====
-- When `wtp unarchive` restores a worktree, and what it does then.
use wtp.Base.{◌≡◌, refl, Bool, if◌then◌else◌, true, false, [], ◌∷◌}
use wtp.Base.Result.{Result, ok, err}
use wtp.Base.Text.{Str}
use wtp.FilePath.{dir}
use wtp.Remote.{RepoIdentifier, state_key}
use wtp.Command.{Command, Executor, git_worktree_add}
use wtp.Store.{Codec}
use wtp.Store.Atomic.{no_faults}
use wtp.Store.Success.{IsTotal, written}
use wtp.State.{WorktreeState, State, put, cleared}
use wtp.State.Archiving.{World}
use wtp.State.Archiving.Success.{clear_archived-written}
use wtp.Cli.Archive.{Queries}
use wtp.Cli.Unarchive.{UnarchiveError, Surroundings, archived_entry, entry_of, load_archived_entry}
use wtp.Cli.Unarchive.{commit_answer, branch_answer, add_answer, validate_unarchive_prereqs}
use wtp.Cli.Unarchive.{resolve_unarchive_path, cleared_with, added_with, create_with, restore_with}
use wtp.Cli.Unarchive.{checked_entry, unarchive_command_core}
use wtp.Cli.Unarchive.{unarchive_unreported, told_path, not_printed}
use wtp.Cli.Unarchive.Restore.{IsRestorable}

module _ {G : Type 0} (queries : Queries G) (around : Surroundings G) (execute : Executor G)
    (codec : Codec State) (total : IsTotal codec) (branch : Str) (repo_id : RepoIdentifier)
    (w : World G) (entry : WorktreeState)
    (found : IsRestorable codec (state_key repo_id branch) no_faults w.disk entry)
    (can_print : Bool) where
  abbrev pub path : Str
  path = resolve_unarchive_path queries around entry.worktree_path repo_id branch w.git

  -- `git worktree add -b <branch> <path> <commit>`
  abbrev pub add : Command
  add =
      git_worktree_add path entry.commit_sha
        (record { force = false; detach = false; branch = branch; track = [] })

  abbrev pub restored_run : Result UnarchiveError Str × World G
  restored_run =
      unarchive_command_core queries around execute codec no_faults can_print branch repo_id w

  load_archived_entry-ok :
      load_archived_entry codec (state_key repo_id branch) no_faults w.disk ≡ ok entry
  unfolding load_archived_entry entry_of archived_entry
  load_archived_entry-ok = rw (found.loaded, found.stored, found.archived, found.has_commit)

  checked_entry-restorable :
      queries.commit_exists entry.commit_sha w.git ≡ ok true
      → queries.branch_exists branch w.git ≡ ok false
      → checked_entry queries around execute codec no_faults (state_key repo_id branch) branch w
        ≡ ok entry
  unfolding checked_entry validate_unarchive_prereqs commit_answer branch_answer
  checked_entry-restorable there free = rw (load_archived_entry-ok, there, free)

  -- Where nothing in the file system fails, an archived entry with a commit is restored if git still
  -- has the commit, the branch name is free, the parent directory can be made and git can add the
  -- worktree: the worktree is added, the post-create hooks run in it, and the entry is cleared in
  -- the state file. The command succeeds exactly if its message can be printed after that.
  pub unarchive-written :
      (g : G)
      → queries.commit_exists entry.commit_sha w.git ≡ ok true
      → queries.branch_exists branch w.git ≡ ok false
      → around.make_dir (dir path) w.git ≡ (true, g)
      → add_answer (execute (add ∷ []) g).0 ≡ ok tt
      → (restored_run.0 ≡ (if can_print then ok path else err not_printed))
        × (restored_run.1.git ≡ around.hooks path (execute (add ∷ []) g).1)
        × (restored_run.1.disk
            ≡ written codec total (put (state_key repo_id branch) (cleared entry) found.state))
  unfolding unarchive_command_core unarchive_unreported told_path restore_with create_with
      added_with cleared_with
  unarchive-written g there free made added =
      rw
        (
          checked_entry-restorable there free,
          made,
          added,
          clear_archived-written codec total (state_key repo_id branch) w.disk found.state
              found.loaded,
          found.stored,
        )
        (refl, refl, refl)
