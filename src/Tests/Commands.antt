-- ===== src/Tests/Commands.antt =====
-- Commands, the archive and the unarchive in a repository that keeps a log of its commands.
use wtp.Base.{◌⊎◌, false, ◌≡◌, ◌↔◌, refl, Bool, true, false, none, some, List, [], ◌∷◌, ◌++◌, map}
use wtp.Base.Result.{Result, ok, err}
use wtp.Base.Text.{Str, str, ◌==◌, trim_suffix, split_byte, has_prefix}
use wtp.Command.{Command, Shell, Executor}
use wtp.Git.{Worktree}
use wtp.Remote.{RepoIdentifier, state_key, storage_path}
use wtp.FilePath.{abs, is_path_within}
use wtp.Store.{Disk, StoreError}
use wtp.Store.Atomic.{no_faults}
use wtp.Base.Dict.{lookup}
use wtp.State.{WorktreeState, cleared, is_archived, load_state, set_archived_full, clear_archived}
use wtp.State.Entries.{IsEdit}
use wtp.State.Archiving.{World, perform_archive, cleanup}
use wtp.State.Archiving.Order.{perform_archive-IsEdit}
use wtp.Cli.Resolver.{is_main_name, resolve_worktree_path_by_name}
use wtp.Cli.Archive.{
  Queries, ArchiveError, not_printed, main_worktree, archive_unreported, archive_command_core,
  build_archive_state, find_archive_target, at_path, validate_archive_safety,
}
use wtp.Cli.Archive.Safety.{IsArchivable}
use wtp.Cli.Archive.Effects.{archive-IsArchivable, archive_command_core-err}
use wtp.Cli.Unarchive.{
  Surroundings, UnarchiveError, unarchive_command_core, unarchive_unreported, add_answer,
  load_archived_entry, validate_unarchive_prereqs, resolve_unarchive_path,
}
use wtp.Cli.Unarchive.Restore.{IsRestored, unarchive-IsRestored}
use wtp.Tests.Codec.{state_codec, state_codec-IsFaithful}
use wtp.Tests.Stores.{archived_at, full_disk, no_disk, rename_fails}

-- The arguments of the commands that were run.
abbrev pub Log : Type 0
Log = List (List Str)

abbrev pub log_shell : Shell Log
log_shell name args dir interactive log = (str "done", none, args ∷ log)

abbrev pub log_executor : Executor Log
log_executor cs log = (ok [], map (λ (c : Command). c.args) cs ++ log)

abbrev pub world_on : Disk → World Log
world_on disk = record { git = []; disk = disk; warnings = [] }

perform_archive-IsEdit_example :
    IsEdit state_codec state_codec-IsFaithful
      (str "k")
      (λ _. archived_at 5 (str "c1"))
      no_disk
      (perform_archive log_executor state_codec no_faults
        (str "k")
        (archived_at 5 (str "c1"))
        (world_on no_disk)).1.disk
    × ((true ≡ true) ↔ (
        (perform_archive log_executor state_codec no_faults
          (str "k")
          (archived_at 5 (str "c1"))
          (world_on no_disk)).1.warnings
        ≡ []))
unfolding perform_archive set_archived_full cleanup ◌==◌
perform_archive-IsEdit_example =
    perform_archive-IsEdit log_executor state_codec state_codec-IsFaithful
      (archived_at 5 (str "c1")) (world_on no_disk) no_faults (str "k") true refl

abbrev pub refused : Result StoreError Bool × World Log
refused =
    perform_archive log_executor state_codec rename_fails (str "k") (archived_at 5 (str "c1"))
      (world_on full_disk)

abbrev pub quiet_queries : Queries Log
quiet_queries = record {
  is_worktree_dirty = λ path log. ok false;
  has_unpushed_commits = λ branch log. err (str "no upstream");
  commit_exists = λ sha log. ok true;
  branch_exists = λ branch log. ok false;
}

abbrev pub app : RepoIdentifier
app = record { host = []; owner = str "o"; repo = str "r" }

abbrev pub two_worktrees : List Worktree
two_worktrees =
    record { path = str "/r"; branch = str "main"; head = str "a1"; is_main = true }
    ∷ record { path = str "/w/q"; branch = str "q"; head = str "b2"; is_main = false }
    ∷ []

abbrev archived : Str → Result ArchiveError Bool × World Log
archived name =
    archive_command_core quiet_queries state_codec log_executor true no_faults (some (str "/r")) 7
      name (str "/r") false two_worktrees app (world_on full_disk)

archive-IsArchivable_example :
    (is_main_name (str "q") ≡ false)
    × ((ws : WorktreeState) × IsArchivable quiet_queries state_codec
          (some (str "/r"))
          7
          (str "q")
          (str "/r")
          false
          two_worktrees
          []
          ws
        × IsEdit state_codec state_codec-IsFaithful
            (state_key app (str "q"))
            (λ _. ws)
            full_disk
            (archived (str "q")).1.disk)
unfolding archive_command_core archive_unreported is_archived lookup ◌==◌ state_key storage_path
    is_main_name build_archive_state find_archive_target resolve_worktree_path_by_name trim_suffix
    at_path abs is_path_within split_byte has_prefix validate_archive_safety perform_archive
    set_archived_full cleanup
archive-IsArchivable_example =
    archive-IsArchivable quiet_queries state_codec (some (str "/r")) 7 (str "q") (str "/r") false
      two_worktrees log_executor state_codec-IsFaithful no_faults app (world_on full_disk) true true
      refl refl

archive_command_core-err_example :
    (((archived (str "@")).1.git ≡ []) × ((archived (str "@")).1.disk.file ≡ full_disk.file))
    ⊎ ((main_worktree ≡ not_printed) × (true ≡ false))
unfolding archive_command_core archive_unreported is_main_name ◌==◌
archive_command_core-err_example =
    archive_command_core-err quiet_queries state_codec (some (str "/r")) 7 (str "@") (str "/r")
      false two_worktrees log_executor state_codec-IsFaithful no_faults app (world_on full_disk)
      true main_worktree refl

abbrev pub surroundings : Surroundings Log
surroundings = record {
  storage_root = str "/s";
  is_dir = λ path log. true;
  absent = λ path log. true;
  make_dir = λ path log. (true, log);
  hooks = λ path log. log;
}

abbrev y_unarchived : Result UnarchiveError Str × World Log
y_unarchived =
    unarchive_command_core quiet_queries surroundings log_executor state_codec no_faults true
      (str "y") app (world_on full_disk)

unarchive-IsRestored_example :
    ((entry : WorktreeState) × IsRestored quiet_queries surroundings log_executor state_codec
        state_codec-IsFaithful no_faults
        (str "y")
        app
        (world_on full_disk)
        (str "/w/x")
        entry
        y_unarchived.1.git)
    × IsEdit state_codec state_codec-IsFaithful
        (state_key app (str "y"))
        cleared
        full_disk
        y_unarchived.1.disk
unfolding unarchive_command_core unarchive_unreported add_answer load_archived_entry load_state
    lookup ◌==◌ state_key storage_path validate_unarchive_prereqs clear_archived
    resolve_unarchive_path
unarchive-IsRestored_example =
    unarchive-IsRestored quiet_queries surroundings log_executor state_codec state_codec-IsFaithful
      no_faults (str "y") app (world_on full_disk) true (str "/w/x") refl
