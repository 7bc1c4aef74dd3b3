-- ===== src/Tests/Syncs.antt =====
-- Syncs of a repository that keeps a log of its commands.
use wtp.Base.{◌≡◌, ◌≢◌, refl, true, false, none, some, List, [], ◌∷◌}
use wtp.Base.Result.{ok}
use wtp.Base.Text.{Str, str, ◌==◌}
use wtp.Base.Lists.{All}
use wtp.Base.Dict.{lookup, insert}
use wtp.Command.{CommandResult, git_worktree_list}
use wtp.Git.{Worktree, parse_worktree_list_output}
use wtp.Github.{PrInfo}
use wtp.Store.Atomic.{no_faults}
use wtp.State.{State, load_state, clear_archived, put, cleared, entry_at}
use wtp.State.Entries.{clear_archived-IsEdit}
use wtp.Maintenance.Sync.{Archived, SyncWorld, Runner, Summary, sync}
use wtp.Maintenance.Checks.Eligible.{collect_checks-cleared}
use wtp.Maintenance.Sync.Account.{IsAccounted, sync-IsAccounted}
use wtp.Tests.Codec.{state_codec, state_codec-IsFaithful, cache_codec}
use wtp.Tests.Stores.{full_disk, no_disk, three_entries}
use wtp.Maintenance.Checks.{BranchCheck, Gh, collect_checks, unchecked}
use wtp.Tests.Commands.{Log, log_executor, world_on, app, two_worktrees}

abbrev pub merged : PrInfo
merged = record {
  number = 3;
  state = str "MERGED";
  title = str "t";
  head_branch = str "q";
  is_draft = false;
  closed_at = 4;
}

abbrev pub gh : Gh
gh = record { pr_for_branch = λ branch. ok (some merged); ci_status = λ branch. ok none }

abbrev pub runner : List Str → Runner Log
runner busy = record {
  repo_id = app;
  state_codec = state_codec;
  cache_codec = cache_codec;
  faults = no_faults;
  execute = log_executor;
  is_worktree_dirty = λ path log. ok false;
  busy = busy;
  now = 9;
  gh_available = true;
}

abbrev pub synced : SyncWorld Log
synced = record { world = world_on full_disk; cache = no_disk; notes = [] }

abbrev pub linked : Worktree
linked = record { path = str "/w/q"; branch = str "q"; head = str "b2"; is_main = false }

abbrev pub linked_check : BranchCheck
linked_check = unchecked linked (str "o/r::q")

abbrev pub reported : Archived
reported = record { repo = str "o/r"; branch = str "q"; pr_number = 3; pr_state = str "MERGED" }

abbrev listing : CommandResult
listing = record {
  command = git_worktree_list;
  output =
      str
        "worktree /r\nHEAD a1\nbranch refs/heads/main\n\nworktree /w/q\nHEAD b2\nbranch refs/heads/q\n";
  error = none;
}

-- Every command answers with the listing.
abbrev listing_runner : Runner Log
listing_runner = record (runner []) { execute = λ cs log. (ok (listing ∷ []), log) }

sync-IsAccounted_example :
    (summary : Summary listing_runner) × ((sync listing_runner gh synced).0 ≡ ok summary)
    × IsAccounted listing_runner state_codec-IsFaithful gh
        (parse_worktree_list_output listing.output)
        three_entries
        summary
unfolding load_state
sync-IsAccounted_example =
    sync-IsAccounted listing_runner state_codec-IsFaithful gh synced [] listing [] three_entries
      refl refl refl refl

-- The state with the entry of `y` cleared, in which the worktree of `y` is back.
abbrev cleared_entries : State
cleared_entries = put (str "o/r::y") (cleared (entry_at three_entries (str "o/r::y"))) three_entries

abbrev restored : Worktree
restored = record { path = str "/w/x"; branch = str "y"; head = str "c1"; is_main = false }

collect_checks-cleared_example :
    All (λ c. c.key ≢ str "o/r::y") (collect_checks app (restored ∷ two_worktrees) cleared_entries)
unfolding clear_archived load_state insert lookup ◌==◌
collect_checks-cleared_example =
    collect_checks-cleared state_codec state_codec-IsFaithful (str "o/r::y") full_disk
      (clear_archived state_codec (str "o/r::y") no_faults full_disk).1
      (clear_archived-IsEdit state_codec state_codec-IsFaithful (str "o/r::y") no_faults full_disk
        refl)
      cleared_entries refl app (restored ∷ two_worktrees)
