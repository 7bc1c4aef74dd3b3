-- ===== src/Cli/Sync.antt =====
-- cli/sync.go and `resolveSyncRepo` of cli/maintenance.go: one run of `wtp sync`. The runner of a
-- repository is an interface in the source, too, and a parameter here.
pub mod Totals
pub mod Again
pub mod Agent
use wtp.Base.{ℕ, ◌+◌, Bool, true, false, not, ◌&&◌, ◌||◌, Option, none, some, List, [], ◌∷◌, ◌++◌}
use wtp.Base.{if◌then◌else◌}
use wtp.Base.Lists.{length, no_items}
use wtp.Base.Result.{Result, ok, err, ◌>>=◌}
use wtp.Base.Text.{Str, str}
use wtp.Remote.{RepoIdentifier, ParseError, parse}
use wtp.Git.Branches.{Git}
use wtp.Git.Repository.{RepositoryError, new_repository, get_main_worktree_path, get_remote_url}
use wtp.Maintenance.Schedule.{
  SyncFiles, SyncFaults, ScheduleError, is_due, mark_full_sync, queue_notices,
}

pub record SyncOptions : Type 0 where
  pub all : Bool
  pub if_due : Bool
  pub background : Bool

-- The answer of `AcquireLock`.
pub data LockAnswer : Type 0 where
  granted held : LockAnswer
  broken : Str → LockAnswer

pub data ResolveError : Type 0 where
  no_repository no_main no_origin : RepositoryError → ResolveError
  no_identifier : ParseError → ResolveError

-- Why the sync of a repository failed: gh is not there, or something else.
pub data RunnerError : Type 0 where
  gh_unavailable : RunnerError
  other : Str → RunnerError

-- `maintenance.Result`, with the texts of what was archived.
pub record RepoResult : Type 0 where
  pub checked : ℕ
  pub archived : List Str
  pub failed : ℕ

pub record SyncTotals : Type 0 where
  pub archived : List Str
  pub checked : ℕ
  pub failed : ℕ

abbrev pub no_totals : SyncTotals
no_totals = record { archived = []; checked = 0; failed = 0 }

pub data SyncError : Type 0 where
  config_unread not_locked not_discovered : Str → SyncError
  no_directory not_in_repository gh_missing print_failed : SyncError
  not_queued : ScheduleError → SyncError

pub data SyncLine : Type 0 where
  already_running : SyncLine
  archived_line : Str → SyncLine
  summary : SyncTotals → ℕ → SyncLine

pub data SyncWarning : Type 0 where
  skipping : Str → ResolveError → SyncWarning
  sync_failed : RepoIdentifier → Str → SyncWarning

pub record SyncRun (G : Type 0) : Type 0 where
  pub repos : G
  pub files : SyncFiles
  pub printed : List SyncLine
  pub warnings : List SyncWarning

-- `load_times` gives the retention and the interval of the global configuration; `reap_archives` is
-- `maintenance.Reap`, whose error is passed over; `discover` is `maintenance.DiscoverRepos`.
pub record SyncAround (G : Type 0) : Type 0 where
  pub load_times : G → Result Str (ℕ × ℕ)
  pub trim_log : G → G
  pub lock : G → LockAnswer
  pub reap_archives : ℕ → G → G
  pub discover : G → Result Str (List Str)
  pub getwd : Option Str
  pub pwd : Option Str
  pub git_in : G → Str → Git
  pub url_parse : Str → Option (Str × Str)
  pub sync_repo : Str → RepoIdentifier → G → Result RunnerError RepoResult × G
  pub faults : SyncFaults
  pub now : ℕ
  pub can_print : Bool

-- An error of one kind as one of another.
abbrev pub or_else : {E F A : Type 0} → (E → F) → Result E A → Result F A
or_else f (ok a) = ok a
or_else f (err e) = err (f e)

module _ {G : Type 0} (around : SyncAround G) where
  -- `resolveSyncRepo`
  unfoldable pub resolve_sync_repo : Str → G → Result ResolveError (Str × RepoIdentifier)
  resolve_sync_repo path g =
      or_else no_repository (new_repository (around.git_in g) path) >>= λ repo.
      (or_else no_main (get_main_worktree_path (around.git_in g repo.path) around.pwd repo)
        >>= λ main.
            (or_else no_origin (get_remote_url (around.git_in g repo.path) (str "origin"))
              >>= λ url.
                  (or_else no_identifier (parse around.url_parse url) >>= λ repo_id.
                  ok (main, repo_id))))

  -- What one round of the loop in `syncRepos` comes to.
  pub data Visit : Type 0 where
    passed_over : SyncWarning → Visit
    synced : RepoResult → Visit
    stopped : Visit

  visited : RepoIdentifier → Result RunnerError RepoResult → Visit
  visited repo_id (ok result) = synced result
  visited repo_id (err gh_unavailable) = stopped
  visited repo_id (err (other e)) = passed_over (sync_failed repo_id e)

  visit_resolved : Str → Result ResolveError (Str × RepoIdentifier) → G → Visit × G
  unfolding visited
  visit_resolved path (err e) g = (passed_over (skipping path e), g)
  visit_resolved path (ok (main, repo_id)) g =
      let (result, g') = around.sync_repo main repo_id g in (visited repo_id result, g')

  pub visit : Str → G → Visit × G
  unfolding visit_resolved resolve_sync_repo
  visit path g = visit_resolved path (resolve_sync_repo path g) g

  -- The totals with one round more.
  pub added : RepoResult → SyncTotals → SyncTotals
  added result totals = record {
    archived = totals.archived ++ result.archived;
    checked = totals.checked + result.checked;
    failed = totals.failed + result.failed;
  }

  pub one_failed : SyncTotals → SyncTotals
  one_failed totals = record totals { failed = totals.failed + 1 }

  abbrev pub Synced : Type 0
  Synced = Result SyncError SyncTotals × SyncRun G

  -- What follows a visit: the other repositories, unless gh is missing.
  pub after_visit : Visit → SyncTotals → SyncRun G → (SyncTotals → SyncRun G → Synced) → Synced
  unfolding added one_failed
  after_visit stopped totals w others = (err gh_missing, w)
  after_visit (passed_over warning) totals w others =
      others (one_failed totals) (record w { warnings = w.warnings ++ warning ∷ [] })
  after_visit (synced result) totals w others = others (added result totals) w

  -- The loop of `syncRepos`
  unfoldable pub sync_repos : List Str → SyncTotals → SyncRun G → Synced
  unfolding visit after_visit
  sync_repos [] totals w = (ok totals, w)
  sync_repos (path ∷ paths) totals w =
      let (v, g) = visit path w.repos in
      after_visit v totals (record w { repos = g }) (sync_repos paths)

  targets_in : Option Str → G → Result SyncError (List Str)
  targets_in none g = err no_directory
  targets_in (some cwd) g = elim (new_repository (around.git_in g) cwd) [
    | err e ↦ err not_in_repository
    | ok repo ↦ ok (cwd ∷ [])
  ]

  unfoldable pub sync_targets : Bool → G → Result SyncError (List Str)
  unfolding targets_in
  sync_targets true g = or_else not_discovered (around.discover g)
  sync_targets false g = targets_in around.getwd g

  abbrev pub Ran : Type 0
  Ran = Result SyncError (Unit {0}) × SyncRun G

  abbrev tell : SyncLine → SyncRun G → SyncRun G
  tell line w = if around.can_print then record w { printed = w.printed ++ line ∷ [] } else w

  tell_all : List Str → SyncRun G → SyncRun G
  tell_all [] w = w
  tell_all (line ∷ lines) w = tell_all lines (tell (archived_line line) w)

  queued : Result ScheduleError (Unit {0}) × SyncFiles → SyncRun G → Ran
  queued (err e, files) w = (err (not_queued e), record w { files = files })
  queued (ok _, files) w = (ok tt, record w { files = files })

  -- `reportArchived`: on the terminal a line that cannot be printed is an error.
  unfoldable pub report_archived : List Str → Bool → SyncRun G → Ran
  unfolding tell_all queued
  report_archived lines true w =
      let w' = tell_all lines w in queued (queue_notices around.faults lines w'.files) w'
  report_archived lines false w =
      if around.can_print || no_items lines
      then (ok tt, tell_all lines w)
      else (err print_failed, w)

  -- A full sync is marked, and a failure to do so passed over.
  marked : Bool → SyncRun G → SyncRun G
  marked all w =
      if all then record w { files = (mark_full_sync around.faults around.now w.files).1 } else w

  summarised : SyncTotals → ℕ → SyncRun G → Ran
  summarised totals repos w =
      (if around.can_print then ok tt else err print_failed, tell (summary totals repos) w)

  reported : SyncOptions → SyncTotals → ℕ → Ran → Ran
  unfolding marked summarised
  reported opts totals repos (err e, w) = (err e, w)
  reported opts totals repos (ok _, w) = summarised totals repos (marked opts.all w)

  totalled : SyncOptions → ℕ → Synced → Ran
  unfolding reported report_archived
  totalled opts repos (err e, w) = (err e, w)
  totalled opts repos (ok totals, w) =
      reported opts totals repos (report_archived totals.archived opts.background w)

  targeted : SyncOptions → Result SyncError (List Str) → SyncRun G → Ran
  unfolding totalled sync_repos
  targeted opts (err e) w = (err e, w)
  targeted opts (ok repos) w = totalled opts (length repos) (sync_repos repos no_totals w)

  locked : SyncOptions → ℕ → LockAnswer → SyncRun G → Ran
  unfolding targeted sync_targets
  locked opts retention (broken e) w = (err (not_locked e), w)
  locked opts retention held w = (ok tt, if opts.background then w else tell already_running w)
  locked opts retention granted w =
      let w' = record w { repos = around.reap_archives retention w.repos } in
      targeted opts (sync_targets opts.all w'.repos) w'

  timed : SyncOptions → ℕ → ℕ → SyncRun G → Ran
  unfolding locked
  timed opts retention interval w =
      let w' = if opts.if_due then record w { repos = around.trim_log w.repos } else w in
      if opts.if_due && not (is_due around.faults around.now interval w'.files)
      then (ok tt, w')
      else locked opts retention (around.lock w'.repos) w'

  -- `runSync`
  unfoldable pub run_sync : SyncOptions → SyncRun G → Ran
  unfolding timed
  run_sync opts w = elim (around.load_times w.repos) [
    | err e ↦ (err (config_unread e), w)
    | ok (retention, interval) ↦ timed opts retention interval w
  ]
