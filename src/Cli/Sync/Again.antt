-- ===== src/Cli/Sync/Again.antt =====
-- A scheduled sync that comes too soon after another.
use wtp.Base.{
  ℕ, ◌+◌, ◌≡◌, refl, ap, ◌∙◌, ◌<◌, Bool, true, false, not, ◌&&◌, some, List, if◌then◌else◌, arith,
}
use wtp.Base.{Bool-cases, inl, inr}
use wtp.Base.Result.{Result, ok, err}
use wtp.Base.Text.{Str}
use wtp.Maintenance.Schedule.{SyncFiles, is_due, mark_full_sync, last_full_sync}
use wtp.Maintenance.Schedule.Spacing.{no_faults}
use wtp.Cli.Sync.{
  SyncOptions, SyncTotals, SyncRun, SyncAround, SyncError, granted, Ran, marked, summarised,
  reported, totalled, targeted, sync_targets, locked, timed, run_sync,
}

-- A sync of every repository; the scheduled agent runs it if it is due and in the background.
abbrev pub full : Bool → Bool → SyncOptions
full if_due background = record { all = true; if_due = if_due; background = background }

module _ {G : Type 0} (around : SyncAround G) where
  -- Runs at one time, whose files of syncs do not fail.
  abbrev pub at_time : ℕ → SyncAround G
  at_time now = record around { faults = no_faults; now = now }

  module _ (now : ℕ) (if_due background : Bool) where
    marked-last_run : (w : SyncRun G) → (marked (at_time now) true w).files.last_run ≡ some now
    unfolding marked mark_full_sync
    marked-last_run w = refl

    summarised-files :
        (totals : SyncTotals) (n : ℕ) (w : SyncRun G)
        → (summarised (at_time now) totals n w).1.files ≡ w.files
    unfolding summarised
    summarised-files totals n w = elim (Bool-cases around.can_print) [
      | inl e ↦ rw e refl
      | inr e ↦ rw e refl
    ]

    reported-last_run :
        (totals : SyncTotals) (n : ℕ) (ran : Ran (at_time now))
        → (reported (at_time now) (full if_due background) totals n ran).0 ≡ ok tt
        → (reported (at_time now) (full if_due background) totals n ran).1.files.last_run ≡ some now
    unfolding reported
    reported-last_run totals n (err e, w) h = cc
    reported-last_run totals n (ok _, w) h =
        ap (λ (f : SyncFiles). f.last_run) (summarised-files totals n (marked (at_time now) true w))
        ∙ marked-last_run w

    totalled-last_run :
        (n : ℕ) (found : Result SyncError SyncTotals × SyncRun G)
        → (totalled (at_time now) (full if_due background) n found).0 ≡ ok tt
        → (totalled (at_time now) (full if_due background) n found).1.files.last_run ≡ some now
    unfolding totalled
    totalled-last_run n (err e, w) h = cc
    totalled-last_run n (ok totals, w) h = reported-last_run totals n _ h

    targeted-last_run :
        (targets : Result SyncError (List Str)) (w : SyncRun G)
        → (targeted (at_time now) (full if_due background) targets w).0 ≡ ok tt
        → (targeted (at_time now) (full if_due background) targets w).1.files.last_run ≡ some now
    unfolding targeted
    targeted-last_run (err e) w h = cc
    targeted-last_run (ok repos) w h = totalled-last_run _ _ h

    -- The state that a run finds, whose log it trims if it is to run only when due.
    abbrev pub begun : SyncRun G → SyncRun G
    begun w = if if_due then record w { repos = around.trim_log w.repos } else w

    abbrev after_reap : ℕ → SyncRun G → SyncRun G
    after_reap retention w = record (begun w) {
      repos = around.reap_archives retention (begun w).repos;
    }

    locked-targeted :
        (w : SyncRun G) (retention : ℕ)
        → locked (at_time now) (full if_due background) retention granted w
          ≡ targeted
              (at_time now)
              (full if_due background)
              (sync_targets (at_time now) true (around.reap_archives retention w.repos))
              (record w { repos = around.reap_archives retention w.repos })
    unfolding locked
    locked-targeted w retention = refl

    timed-targeted :
        (w : SyncRun G) (retention interval : ℕ)
        → (if_due && not (is_due no_faults now interval (begun w).files)) ≡ false
        → around.lock (begun w).repos ≡ granted
        → timed (at_time now) (full if_due background) retention interval w
          ≡ targeted
              (at_time now)
              (full if_due background)
              (sync_targets (at_time now) true (after_reap retention w).repos)
              (after_reap retention w)
    unfolding timed
    timed-targeted w retention interval due lock =
        rw (due, lock) (locked-targeted (begun w) retention)

    run_sync-targeted :
        (w : SyncRun G) (retention interval : ℕ)
        → around.load_times w.repos ≡ ok (retention, interval)
        → (if_due && not (is_due no_faults now interval (begun w).files)) ≡ false
        → around.lock (begun w).repos ≡ granted
        → run_sync (at_time now) (full if_due background) w
          ≡ targeted
              (at_time now)
              (full if_due background)
              (sync_targets (at_time now) true (after_reap retention w).repos)
              (after_reap retention w)
    unfolding run_sync
    run_sync-targeted w retention interval loads due lock =
        rw (loads, run_sync) (timed-targeted w retention interval due lock)

    run_sync-last_run :
        (w : SyncRun G) (retention interval : ℕ)
        → around.load_times w.repos ≡ ok (retention, interval)
        → (if_due && not (is_due no_faults now interval (begun w).files)) ≡ false
        → around.lock (begun w).repos ≡ granted
        → (run_sync (at_time now) (full if_due background) w).0 ≡ ok tt
        → (run_sync (at_time now) (full if_due background) w).1.files.last_run ≡ some now
    run_sync-last_run w retention interval loads due lock h =
        let e = run_sync-targeted w retention interval loads due lock in
        rw e (targeted-last_run _ _ (rw e at h))

  marked-is_due :
      (now later interval : ℕ) (files : SyncFiles)
      → files.last_run ≡ some now
      → later < now + interval
      → is_due no_faults later interval files ≡ false
  unfolding is_due last_full_sync
  marked-is_due now later interval files e h = rw e (ground (arith, h))

  timed-not_due :
      (later retention interval : ℕ) (w : SyncRun G)
      → is_due no_faults later interval w.files ≡ false
      → timed (at_time later) (full true true) retention interval w
        ≡ (ok tt, record w { repos = around.trim_log w.repos })
  unfolding timed
  timed-not_due later retention interval w e = rw e refl

  run_sync-not_due :
      (later retention interval : ℕ) (w : SyncRun G)
      → around.load_times w.repos ≡ ok (retention, interval)
      → is_due no_faults later interval w.files ≡ false
      → run_sync (at_time later) (full true true) w
        ≡ (ok tt, record w { repos = around.trim_log w.repos })
  unfolding run_sync
  run_sync-not_due later retention interval w loads e =
      rw (loads, run_sync) (timed-not_due later retention interval w e)

  -- A sync of every repository that begins with files which do not fail, gets the lock (and, if it
  -- is to run only when due, is due) and ends without an error makes the run of the scheduled agent
  -- do nothing but trim its log, until the interval that is configured by then has passed.
  pub run_sync-run_sync :
      (if_due background : Bool) (now later retention interval retention' interval' : ℕ)
      (w : SyncRun G)
      → around.load_times w.repos ≡ ok (retention, interval)
      → (if_due && not (is_due no_faults now interval (begun now if_due background w).files))
        ≡ false
      → around.lock (begun now if_due background w).repos ≡ granted
      → (run_sync (at_time now) (full if_due background) w).0 ≡ ok tt
      → around.load_times (run_sync (at_time now) (full if_due background) w).1.repos
        ≡ ok (retention', interval')
      → later < now + interval'
      → run_sync
          (at_time later)
          (full true true)
          (run_sync (at_time now) (full if_due background) w).1
        ≡ (
          ok tt,
          record (run_sync (at_time now) (full if_due background) w).1 {
            repos = around.trim_log (run_sync (at_time now) (full if_due background) w).1.repos;
          },
        )
  run_sync-run_sync if_due background now later retention interval retention' interval' w loads due
        lock h loads' soon =
      let first = run_sync (at_time now) (full if_due background) w in
      run_sync-not_due later retention' interval' first.1 loads' (
        marked-is_due now later interval' first.1.files
          (run_sync-last_run now if_due background w retention interval loads due lock h) soon)
