-- ===== src/Tests/Runs.antt =====
-- Runs that succeed, at concrete inputs.
use wtp.Base.{Bool, ◌≡◌, refl, true, false, inr, some, [], ◌∷◌, if◌then◌else◌}
use wtp.Base.Result.{Result, ok}
use wtp.Base.Text.{Str, str, ◌==◌, trim_suffix, split_byte, has_prefix}
use wtp.Base.Dict.{lookup}
use wtp.FilePath.{abs, is_path_within}
use wtp.Remote.{state_key, storage_path}
use wtp.Command.{git_worktree_remove, git_branch_force_delete}
use wtp.Store.Atomic.{no_faults}
use wtp.Store.Success.{written}
use wtp.State.{State, put, cleared, load_state}
use wtp.State.Archiving.{cleanup}
use wtp.Cli.Resolver.{is_main_name, resolve_worktree_path_by_name}
use wtp.Cli.Archive.Again.{run_again, world_again, archive_command_core-again}
use wtp.State.Archiving.{World}
use wtp.Cli.Unarchive.{UnarchiveError}
use wtp.Cli.Archive.{ArchiveError, Queries, at_path, fresh_state}
use wtp.Cli.Archive.Safety.{IsTarget}
use wtp.Cli.Archive.Success.{recorded_world, archived_run, archive_command_core-written}
use wtp.Cli.Unarchive.{add_answer, resolve_unarchive_path}
use wtp.Cli.Unarchive.Restore.{IsRestorable}
use wtp.Cli.Unarchive.Success.{add, restored_run, unarchive-written}
use wtp.Cli.RoundTrip.{after_archive, after_unarchive, add_back, unarchive-archive}
use wtp.Tests.Codec.{state_codec, state_codec-IsFaithful, state_codec-IsTotal}
use wtp.Tests.Stores.{full_disk, three_entries, archived_at}
use wtp.Tests.Commands.{
  Log, log_executor, world_on, app, two_worktrees, quiet_queries, surroundings,
}
use wtp.Tests.Syncs.{linked}

q-IsTarget : IsTarget (some (str "/r")) (str "q") (str "/r") two_worktrees linked
unfolding resolve_worktree_path_by_name at_path abs is_path_within ◌==◌ split_byte has_prefix
    trim_suffix
q-IsTarget = record {
  addressed = refl;
  listed = refl;
  linked = refl;
  target = str "/w/q";
  here = str "/r";
  target_is = refl;
  here_is = refl;
  elsewhere = refl;
}

-- The archive of the branch `q`, which is at `/w/q`, from `/r`.
abbrev q_archived : Result ArchiveError Bool × World Log
q_archived =
    archived_run quiet_queries state_codec state_codec-IsTotal log_executor (some (str "/r")) 7
      (str "q") (str "/r") false two_worktrees linked app (world_on full_disk) three_entries true

abbrev q_recorded : World Log
q_recorded =
    recorded_world quiet_queries state_codec state_codec-IsTotal log_executor (some (str "/r")) 7
      (str "q") (str "/r") false two_worktrees linked app (world_on full_disk) three_entries true

abbrev q_gone : World Log
q_gone =
    after_archive quiet_queries surroundings log_executor state_codec state_codec-IsFaithful
      state_codec-IsTotal true (some (str "/r")) 7 (str "q") (str "/r") false two_worktrees linked
      app (world_on full_disk) three_entries

abbrev q_back : Result UnarchiveError Str × World Log
q_back =
    after_unarchive quiet_queries surroundings log_executor state_codec state_codec-IsFaithful
      state_codec-IsTotal true (some (str "/r")) 7 (str "q") (str "/r") false two_worktrees linked
      app (world_on full_disk) three_entries

archive_command_core-written_example :
    (q_archived.0 ≡ ok true)
    × (q_archived.1.disk ≡ q_recorded.disk)
    × (q_archived.1.git
        ≡ (log_executor
            (git_branch_force_delete (str "q") ∷ [])
            (log_executor (git_worktree_remove (str "/w/q") true ∷ []) []).1).1)
unfolding is_main_name lookup ◌==◌ state_key storage_path cleanup load_state
archive_command_core-written_example =
    archive_command_core-written quiet_queries state_codec state_codec-IsTotal log_executor
      (some (str "/r")) 7 (str "q") (str "/r") false two_worktrees linked app (world_on full_disk)
      three_entries true refl refl refl q-IsTarget (inr (refl, λ h. cc h)) refl refl

unarchive-archive_example :
    (q_back.0 ≡ ok (str "/w/q"))
    × (q_back.1.git
        ≡ (log_executor
            (add_back quiet_queries surroundings log_executor state_codec state_codec-IsFaithful
                state_codec-IsTotal true
                (some (str "/r"))
                7
                (str "q")
                (str "/r")
                false
                two_worktrees
                linked
                app
                (world_on full_disk)
                three_entries
              ∷ [])
            q_gone.git).1)
    × ((final : State) × (load_state state_codec no_faults q_back.1.disk ≡ ok final)
        × ((j : Str)
            → lookup j final.worktrees ≡ (
                if state_key app (str "q") == j
                then some (cleared (fresh_state quiet_queries 7 linked))
                else lookup j three_entries.worktrees)))
unfolding is_main_name lookup ◌==◌ state_key storage_path load_state add_answer
unarchive-archive_example =
    unarchive-archive quiet_queries surroundings log_executor state_codec state_codec-IsFaithful
      state_codec-IsTotal true (some (str "/r")) 7 (str "q") (str "/r") false two_worktrees linked
      app (world_on full_disk) three_entries _ refl refl refl refl q-IsTarget
      (inr (refl, λ h. cc h)) refl refl refl refl refl refl refl refl

abbrev y_restorable :
    IsRestorable state_codec
      (state_key app (str "y"))
      no_faults
      full_disk
      (archived_at 5 (str "c1"))
unfolding load_state lookup ◌==◌ state_key storage_path
y_restorable = record {
  state = three_entries;
  loaded = refl;
  stored = refl;
  archived = refl;
  has_commit = refl;
}

abbrev y_restored : Result UnarchiveError Str × World Log
y_restored =
    restored_run quiet_queries surroundings log_executor state_codec state_codec-IsTotal (str "y")
      app (world_on full_disk) (archived_at 5 (str "c1")) y_restorable true

unarchive-written_example :
    (y_restored.0 ≡ ok (str "/w/x"))
    × (y_restored.1.git
        ≡ (log_executor
            (add quiet_queries surroundings log_executor state_codec state_codec-IsTotal
                (str "y")
                app
                (world_on full_disk)
                (archived_at 5 (str "c1"))
                y_restorable
                true
              ∷ [])
            []).1)
    × (y_restored.1.disk
        ≡ written state_codec state_codec-IsTotal
            (put (state_key app (str "y")) (cleared (archived_at 5 (str "c1"))) three_entries))
unfolding y_restorable resolve_unarchive_path ◌==◌ add_answer
unarchive-written_example =
    unarchive-written quiet_queries surroundings log_executor state_codec state_codec-IsTotal
      (str "y") app (world_on full_disk) (archived_at 5 (str "c1")) y_restorable true _ refl refl
      refl refl

-- The branch `y` is archived, and its worktree is back with changes in it.
abbrev dirty_queries : Queries Log
dirty_queries = record quiet_queries { is_worktree_dirty = λ path log. ok true }

abbrev y_again : Result ArchiveError Bool × World Log
y_again =
    run_again dirty_queries state_codec state_codec-IsTotal log_executor (some (str "/r")) 7
      (str "y") (str "/w/x") false two_worktrees app (world_on full_disk) three_entries true

abbrev y_recorded : World Log
y_recorded =
    world_again dirty_queries state_codec state_codec-IsTotal log_executor (some (str "/r")) 7
      (str "y") (str "/w/x") false two_worktrees app (world_on full_disk) three_entries true

archive_command_core-again_example :
    (y_again.0 ≡ ok true)
    × (y_again.1.disk ≡ y_recorded.disk)
    × (y_again.1.git
        ≡ (log_executor
            (git_branch_force_delete (str "x") ∷ [])
            (log_executor (git_worktree_remove (str "/w/x") true ∷ []) []).1).1)
unfolding is_main_name lookup ◌==◌ state_key storage_path cleanup load_state
archive_command_core-again_example =
    archive_command_core-again dirty_queries state_codec state_codec-IsTotal log_executor
      (some (str "/r")) 7 (str "y") (str "/w/x") false two_worktrees app (world_on full_disk)
      three_entries true refl refl refl refl refl
