-- ===== src/Tests/Syncing.antt =====
-- `wtp sync` at concrete inputs.
use wtp.Base.{arith, ◌≡◌, refl, true, false, ◌⊎◌, none, some, List, [], ◌∷◌, ◌++◌, if◌then◌else◌}
use wtp.Base.Result.{ok}
use wtp.Base.Text.{
  Str, str, ◌==◌, has_byte, contains, cut, cut_prefix, has_prefix, has_suffix, trim_suffix, split_n,
  after_last, trim_prefix, cut_byte, split_byte, trim_space, trim_left,
}
use wtp.FilePath.{is_abs, abs, clean, clean_parts, dir, join, joined, up_to_last}
use wtp.Git.{newline}
use wtp.Git.Branches.{Git, succeeded}
use wtp.Git.Repository.{new_repository, get_main_worktree_path, get_remote_url, is_git_repository}
use wtp.Remote.{parse, parse_scp}
use wtp.Maintenance.Schedule.{is_due, queue_notices, last_full_sync, lines_text, mark_full_sync}
use wtp.Maintenance.Schedule.Spacing.{no_faults}
use wtp.Cli.Sync.{SyncRun, SyncAround, granted, sync_repos, run_sync, report_archived, sync_targets}
use wtp.Cli.Sync.Again.{full, at_time, run_sync-run_sync}
use wtp.Cli.Sync.Agent.{agent_program, resolve_executable}
use wtp.Cli.Sync.Agent.Absolute.{agent_program-is_abs}

-- A repository at `/r` whose origin is on GitHub.
abbrev origin_git : Git
origin_git (name ∷ args) =
    if name == str "remote"
    then succeeded (str "git@github.com:o/r.git" ++ newline ∷ []) []
    else succeeded (str "/r/.git" ++ newline ∷ []) []
origin_git [] = succeeded [] []

-- The log of the repositories that were synced, each with one archived worktree of two.
abbrev around : SyncAround (List Str)
around = record {
  load_times = λ g. ok (5, 10);
  trim_log = λ g. [];
  lock = λ g. granted;
  reap_archives = λ retention g. g;
  discover = λ g. ok (str "/r" ∷ []);
  getwd = none;
  pwd = none;
  git_in = λ g dir. origin_git;
  url_parse = λ url. none;
  sync_repo = λ main repo_id g.
      (ok (record { checked = 2; archived = str "archived q" ∷ []; failed = 0 }), main ∷ g);
  faults = no_faults;
  now = 0;
  can_print = true;
}

abbrev fresh_run : SyncRun (List Str)
fresh_run = record {
  repos = [];
  files = record { last_run = none; markers = []; notices = none; legacy_throttles = false };
  printed = [];
  warnings = [];
}

abbrev two_paths : List Str
two_paths = str "/r" ∷ str "/s" ∷ []

abbrev first_run : SyncRun (List Str)
first_run = (run_sync (at_time around 100) (full true true) fresh_run).1

run_sync-run_sync_example :
    run_sync (at_time around 105) (full true true) first_run
    ≡ (ok tt, record first_run { repos = [] })
unfolding run_sync is_due new_repository ◌==◌ get_main_worktree_path is_abs has_suffix trim_space
    dir has_byte get_remote_url parse contains parse_scp cut_byte split_n trim_suffix queue_notices
    after_last cut cut_prefix has_prefix trim_left trim_prefix report_archived sync_repos
    sync_targets abs clean clean_parts join joined up_to_last is_git_repository last_full_sync
    lines_text mark_full_sync
run_sync-run_sync_example =
    run_sync-run_sync around true true 100 105 5 10 5 10 fresh_run refl refl refl refl refl
      (omega arith)

agent_program-is_abs_example :
    (exe : Str) × (agent_program
        (λ path. path == str "/bin/wtp")
        (λ a b. true)
        (some (str "/r"))
        (str "wtp" ∷ str "x" ∷ [])
        (str "bin:/usr:/bin")
      ≡ ok (exe ∷ str "x" ∷ []))
    × (is_abs exe ≡ true)
    × ((exe ≡ str "/bin/wtp") ⊎ (true ≡ true))
unfolding is_abs ◌==◌ resolve_executable has_byte split_byte join
agent_program-is_abs_example =
    agent_program-is_abs (λ path. path == str "/bin/wtp") (λ a b. true) (str "/r") (str "wtp")
      (str "bin:/usr:/bin") (str "/bin/wtp") (str "x" ∷ []) refl refl refl
