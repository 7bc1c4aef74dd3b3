-- ===== src/State/Archiving.antt =====
-- internal/state/archive.go: the archive sequence, which writes the state file first and then
-- removes the worktree and the branch. `G` is the state of the git repository.
pub mod Order
pub mod Success
use wtp.Base.{Bool, true, false, ◌&&◌, ◌||◌, Option, none, some, List, [], ◌∷◌, ◌++◌, if◌then◌else◌}
use wtp.Base.Result.{Result, ok, err}
use wtp.Base.Text.{Str, str, ◌==◌, contains}
use wtp.Command.{Command, CommandResult, Executor, git_worktree_remove, git_branch_force_delete}
use wtp.Store.{Codec, Disk, Faults, StoreError}
use wtp.State.{WorktreeState, State, set_archived_full}

-- What is printed to the warning stream, with the text that the message quotes.
pub data Warning : Type 0 where
  remove_not_run remove_failed delete_not_run delete_failed : Str → Warning

-- What the sequence reads and changes.
pub record World (G : Type 0) : Type 0 where
  pub git : G
  pub disk : Disk
  pub warnings : List Warning

-- How one git command went: it did what was wanted, or why not.
pub data Outcome : Type 0 where
  fine : Outcome
  not_run failed : Str → Outcome

abbrev pub combined : Str → Str → Str
combined message output = message ++ (str " " ++ output)

-- An error that says that there was nothing left to do is fine.
unfoldable pub outcome_of : (Str → Bool) → Result Str (List CommandResult) → Outcome
outcome_of benign (err e) = not_run e
outcome_of benign (ok []) = fine
outcome_of benign (ok (r ∷ rest)) = elim r.error [
  | none ↦ fine
  | some message ↦
      if benign (combined message r.output) then fine else failed (combined message r.output)
]

unfoldable pub already_removed : Str → Bool
already_removed text =
    contains (str "not a valid working tree") text || contains (str "is not a working tree") text

unfoldable pub already_deleted : Str → Bool
already_deleted text = contains (str "not found") text

abbrev pub is_fine : Outcome → Bool
is_fine fine = true
is_fine _ = false

abbrev remove_warnings : Outcome → List Warning
remove_warnings fine = []
remove_warnings (not_run e) = remove_not_run e ∷ []
remove_warnings (failed e) = remove_failed e ∷ []

abbrev delete_warnings : Outcome → List Warning
delete_warnings fine = []
delete_warnings (not_run e) = delete_not_run e ∷ []
delete_warnings (failed e) = delete_failed e ∷ []

module _ {G : Type 0} (execute : Executor G) where
  -- A command that is run if the text it is about is given.
  unfoldable pub run_step : Str → (Str → Bool) → Command → G → Outcome × G
  unfolding outcome_of
  run_step text benign command g =
      if text == []
      then (fine, g)
      else (let (result, g') = execute (command ∷ []) g in (outcome_of benign result, g'))

  unfoldable pub cleanup : WorktreeState → World G → Bool × World G
  unfolding run_step already_removed already_deleted
  cleanup ws w =
      let (removed, g) =
        run_step ws.worktree_path already_removed (git_worktree_remove ws.worktree_path true)
          w.git in
      let (deleted, g') =
        run_step ws.branch already_deleted (git_branch_force_delete ws.branch) g in
      (
        is_fine removed && is_fine deleted,
        record {
          git = g';
          disk = w.disk;
          warnings = w.warnings ++ (remove_warnings removed ++ delete_warnings deleted);
        },
      )

  module _ (codec : Codec State) where
    recorded :
        WorktreeState
        → World G
        → Result StoreError (Unit {0})
        → Disk
        → Result StoreError Bool × World G
    recorded ws w (err e) disk = (err e, record w { disk = disk })
    recorded ws w (ok _) disk =
        let (clean, w') = cleanup ws (record w { disk = disk }) in (ok clean, w')

    -- `PerformArchive`
    unfoldable pub perform_archive :
        Faults → Str → WorktreeState → World G → Result StoreError Bool × World G
    unfolding recorded
    perform_archive faults key ws w =
        let (written, disk) = set_archived_full codec key ws faults w.disk in
        recorded ws w written disk
