-- ===== src/Maintenance/Schedule/Spacing.antt =====
-- How far apart refreshes and full syncs are.
use wtp.Base.{ℕ, ◌+◌, ◌≤◌, ◌≡◌, ◌↔◌, refl, ◌∙◌, Bool, true, false, none, some, arith}
use wtp.Base.{Bool-cases, inl, inr, if◌then◌else◌}
use wtp.Base.Text.{Str, ◌==◌}
use wtp.Base.Text.Laws.{eq_refl}
use wtp.Base.Result.{ok}
use wtp.Base.Dict.{lookup, lookup-insert}
use wtp.Maintenance.Schedule.{SyncFiles, SyncFaults, has_passed, last_full_sync, is_due, touched}
use wtp.Maintenance.Schedule.{mark_full_sync, too_soon, refresh_marker, claim_refresh}

-- Nothing fails.
abbrev pub no_faults : SyncFaults
no_faults = record {
  stat = false;
  ensure_dir = false;
  lock = false;
  open_file = false;
  write = false;
  touch = none;
  partial = none;
  close = false;
  remove = false;
}

has_passed_iff : (t interval now : ℕ) → (has_passed t interval now ≡ true) ↔ (t + interval ≤ now)
has_passed_iff t interval now = (λ h. ground (arith, h), λ h. ground (arith, h))

-- After a full sync was marked, the next one is due exactly once the interval has passed since then.
is_due-mark_full_sync :
    (now later interval : ℕ) (files : SyncFiles)
    → ((mark_full_sync no_faults now files).0 ≡ ok tt)
      × ((is_due no_faults later interval (mark_full_sync no_faults now files).1 ≡ true)
          ↔ (now + interval ≤ later))
unfolding is_due mark_full_sync last_full_sync touched
is_due-mark_full_sync now later interval files = (refl, has_passed_iff now interval later)

module _ (sync_dir : Str) (now : ℕ) (key : Str) (interval : ℕ) (files : SyncFiles) where
  abbrev pub claim : Bool × SyncFiles
  claim = claim_refresh sync_dir no_faults now key interval files

  marker-claim :
      claim.0 ≡ true
      → (j : Str)
      → lookup j claim.1.markers
        ≡ (if refresh_marker sync_dir key == j then some now else lookup j files.markers)
  unfolding claim_refresh
  marker-claim h j =
      elim (Bool-cases
        (too_soon no_faults (lookup (refresh_marker sync_dir key) files.markers) interval now)) [
          | inl e ↦ cc (rw e at h)
          | inr e ↦ rw e (lookup-insert (refresh_marker sync_dir key) j now files.markers)
        ]

  -- A claim that finds the marker of a repository at `time` is granted exactly once its interval has
  -- passed.
  too_soon_iff :
      (later wait time : ℕ)
      → ((if too_soon no_faults (some time) wait later then false else true) ≡ true)
        ↔ (time + wait ≤ later)
  unfolding too_soon
  too_soon_iff later wait time = (λ h. ground (arith, h), λ h. ground (arith, h))

  granted :
      (later wait : ℕ) (fs : SyncFiles)
      → (claim_refresh sync_dir no_faults later key wait fs).0 ≡ (
          if too_soon no_faults (lookup (refresh_marker sync_dir key) fs.markers) wait later
          then false
          else true)
  unfolding claim_refresh
  granted later wait fs = ground arith

  -- After a refresh of a repository was claimed, the next claim for it is granted exactly once the
  -- interval asked for has passed since then; and no other marker has changed.
  pub claim_refresh-claim_refresh :
      claim.0 ≡ true
      → (later wait : ℕ)
      → (((claim_refresh sync_dir no_faults later key wait claim.1).0 ≡ true)
          ↔ (now + wait ≤ later))
        × ((j : Str)
            → lookup j claim.1.markers
              ≡ (if refresh_marker sync_dir key == j then some now else lookup j files.markers))
  claim_refresh-claim_refresh h later wait =
      let marker = refresh_marker sync_dir key in
      let found : lookup marker claim.1.markers ≡ some now =
        marker-claim h marker ∙ rw (eq_refl marker) in
      (rw (granted later wait claim.1, found) (too_soon_iff later wait now), marker-claim h)
