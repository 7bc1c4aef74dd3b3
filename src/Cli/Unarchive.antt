-- ===== src/Cli/Unarchive.antt =====
-- `unarchiveCommandCore` of cli/archive.go and the functions that it calls.
pub mod Restore
pub mod Success
use wtp.Base.{ℕ, Bool, true, false, not, ◌&&◌, Option, none, some, List, [], ◌∷◌, if◌then◌else◌}
use wtp.Base.Result.{Result, ok, err, ◌>>=◌}
use wtp.Base.Text.{Str, str, ◌==◌}
use wtp.Base.Dict.{lookup}
use wtp.FilePath.{join, dir}
use wtp.Remote.{RepoIdentifier, state_key, storage_path}
use wtp.Command.{CommandResult, Executor, git_worktree_add}
use wtp.Store.{Codec, Disk, Faults, StoreError}
use wtp.State.{WorktreeState, State, load_state, clear_archived}
use wtp.State.Archiving.{World}
use wtp.Cli.Archive.{Queries}

pub data UnarchiveError : Type 0 where
  not_archived legacy_entry commit_gone branch_taken dir_not_made not_printed : UnarchiveError
  load_failed clear_failed : StoreError → UnarchiveError
  commit_unknown branch_unknown restore_failed : Str → UnarchiveError

archived_entry : Option WorktreeState → Result UnarchiveError WorktreeState
archived_entry none = err not_archived
archived_entry (some entry) =
    if not entry.archived
    then err not_archived
    else if entry.commit_sha == []
    then err legacy_entry
    else ok entry

entry_of : Str → Result StoreError State → Result UnarchiveError WorktreeState
unfolding archived_entry
entry_of key (err e) = err (load_failed e)
entry_of key (ok st) = archived_entry (lookup key st.worktrees)

unfoldable pub load_archived_entry :
    Codec State → Str → Faults → Disk → Result UnarchiveError WorktreeState
unfolding entry_of
load_archived_entry codec key faults disk = entry_of key (load_state codec faults disk)

commit_answer : Result Str Bool → Result UnarchiveError (Unit {0})
commit_answer (err e) = err (commit_unknown e)
commit_answer (ok exists) = if exists then ok tt else err commit_gone

branch_answer : Result Str Bool → Result UnarchiveError (Unit {0})
branch_answer (err e) = err (branch_unknown e)
branch_answer (ok exists) = if exists then err branch_taken else ok tt

unfoldable pub add_answer : Result Str (List CommandResult) → Result UnarchiveError (Unit {0})
add_answer (err e) = err (restore_failed e)
add_answer (ok []) = ok tt
add_answer (ok (r ∷ rest)) = elim r.error [
  | none ↦ ok tt
  | some message ↦ err (restore_failed r.output)
]

-- What the command asks of the file system, and what it runs that is not git: `is_dir` and `absent`
-- are `os.Stat`, `hooks` the post-create hooks, whose failures only print a warning.
pub record Surroundings (G : Type 0) : Type 0 where
  pub storage_root : Str
  pub is_dir : Str → G → Bool
  pub absent : Str → G → Bool
  pub make_dir : Str → G → Bool × G
  pub hooks : Str → G → G

module _ {G : Type 0} (queries : Queries G) (around : Surroundings G) where
  unfoldable pub validate_unarchive_prereqs :
      WorktreeState → Str → G → Result UnarchiveError (Unit {0})
  unfolding commit_answer branch_answer
  validate_unarchive_prereqs entry branch g =
      commit_answer (queries.commit_exists entry.commit_sha g) >>= λ _.
      branch_answer (queries.branch_exists branch g)

  unfoldable pub resolve_unarchive_path : Str → RepoIdentifier → Str → G → Str
  resolve_unarchive_path original repo_id branch g =
      if not (original == []) && (around.is_dir (dir original) g && around.absent original g)
      then original
      else join (join around.storage_root (storage_path repo_id)) branch

  module _ (execute : Executor G) (codec : Codec State) (faults : Faults) where
    abbrev Restored : Type 0
    Restored = Result UnarchiveError Str × World G

    cleared_with : Str → World G → Result StoreError (Unit {0}) × Disk → Restored
    cleared_with path w (err e, disk) = (err (clear_failed e), record w { disk = disk })
    cleared_with path w (ok _, disk) = (ok path, record w { disk = disk })

    added_with : Str → Str → World G → Result UnarchiveError (Unit {0}) → Restored
    unfolding cleared_with
    added_with key path w (err e) = (err e, w)
    added_with key path w (ok _) =
        let w' = record w { git = around.hooks path w.git } in
        cleared_with path w' (clear_archived codec key faults w.disk)

    create_with : Str → Str → Str → Str → World G → Bool × G → Restored
    unfolding added_with add_answer
    create_with key branch path sha w (false, g) = (err dir_not_made, record w { git = g })
    create_with key branch path sha w (true, g) =
        let add =
          git_worktree_add path sha
            (record { force = false; detach = false; branch = branch; track = [] }) in
        let (result, g') = execute (add ∷ []) g in
        added_with key path (record w { git = g' }) (add_answer result)

    restore_with :
        Str → Str → RepoIdentifier → World G → Result UnarchiveError WorktreeState → Restored
    unfolding create_with
    restore_with key branch repo_id w (err e) = (err e, w)
    restore_with key branch repo_id w (ok entry) =
        let path = resolve_unarchive_path entry.worktree_path repo_id branch w.git in
        create_with key branch path entry.commit_sha w (around.make_dir (dir path) w.git)

    unfoldable pub checked_entry : Str → Str → World G → Result UnarchiveError WorktreeState
    checked_entry key branch w = load_archived_entry codec key faults w.disk >>= λ entry.
        (validate_unarchive_prereqs entry branch w.git >>= λ _. ok entry)

    -- `unarchiveCommandCore` up to its message.
    unfoldable pub unarchive_unreported : Str → RepoIdentifier → World G → Restored
    unfolding restore_with checked_entry
    unarchive_unreported branch repo_id w =
        let key = state_key repo_id branch in
        restore_with key branch repo_id w (checked_entry key branch w)

    -- The message is printed when all is done. If it cannot be, that is an error of the command.
    told_path : Bool → Restored → Restored
    told_path can_print (err e, w) = (err e, w)
    told_path can_print (ok path, w) = (if can_print then ok path else err not_printed, w)

    -- `unarchiveCommandCore`: the path of the worktree that was restored.
    unfoldable pub unarchive_command_core : Bool → Str → RepoIdentifier → World G → Restored
    unfolding told_path unarchive_unreported
    unarchive_command_core can_print branch repo_id w =
        told_path can_print (unarchive_unreported branch repo_id w)
