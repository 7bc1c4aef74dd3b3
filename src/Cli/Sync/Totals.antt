-- ===== src/Cli/Sync/Totals.antt =====
-- What the loop over the repositories adds up.
use wtp.Base.{ℕ, ◌+◌, Bool, true, false, List, [], ◌∷◌, ◌++◌, if◌then◌else◌}
use wtp.Base.Result.{Result, ok, err}
use wtp.Base.Text.{Str}
use wtp.Cli.Sync.{
  SyncTotals, SyncAround, SyncError, gh_missing, Visit, passed_over, synced, stopped, visit,
}

module _ {G : Type 0} (around : SyncAround G) where
  continued : Visit around → List (Visit around) → List (Visit around)
  continued stopped others = stopped ∷ []
  continued (passed_over warning) others = passed_over warning ∷ others
  continued (synced result) others = synced result ∷ others

  -- The visits of the repositories in turn, up to the first one that finds gh missing.
  unfoldable pub visits : List Str → G → List (Visit around)
  unfolding continued
  visits [] g = []
  visits (path ∷ paths) g = continued (visit around path g).0 (visits paths (visit around path g).1)

  abbrev pub stops : List (Visit around) → Bool
  stops [] = false
  stops (stopped ∷ others) = true
  stops (passed_over warning ∷ others) = stops others
  stops (synced result ∷ others) = stops others

  abbrev pub archived_by : List (Visit around) → List Str
  archived_by [] = []
  archived_by (stopped ∷ others) = archived_by others
  archived_by (passed_over warning ∷ others) = archived_by others
  archived_by (synced result ∷ others) = result.archived ++ archived_by others

  abbrev pub checked_by : List (Visit around) → ℕ
  checked_by [] = 0
  checked_by (stopped ∷ others) = checked_by others
  checked_by (passed_over warning ∷ others) = checked_by others
  checked_by (synced result ∷ others) = result.checked + checked_by others

  -- A repository that cannot be synced is one failure.
  abbrev pub failed_by : List (Visit around) → ℕ
  failed_by [] = 0
  failed_by (stopped ∷ others) = failed_by others
  failed_by (passed_over warning ∷ others) = 1 + failed_by others
  failed_by (synced result ∷ others) = result.failed + failed_by others

  abbrev with_visits : SyncTotals → List (Visit around) → Result SyncError SyncTotals
  with_visits totals vs =
      if stops vs
      then err gh_missing
      else ok (record {
        archived = totals.archived ++ archived_by vs;
        checked = totals.checked + checked_by vs;
        failed = totals.failed + failed_by vs;
      })

  abbrev totals_of : List Str → ℕ → ℕ → Result SyncError SyncTotals
  totals_of xs c f = ok (record { archived = xs; checked = c; failed = f })
