-- ===== src/Maintenance/Reap.antt =====
-- `Reap` of internal/maintenance/maintenance.go. A retention is not negative here.
pub mod Removal
pub mod Success
use wtp.Base.{
  ℕ, suc, ◌+◌, Bool, true, false, not, ◌&&◌, ◌||◌, Option, none, some, List, [], ◌∷◌, if◌then◌else◌,
  ltb, nat_eq,
}
use wtp.Base.Result.{Result, ok, err}
use wtp.Base.Text.{Str}
use wtp.Base.Dict.{Dict, erase}
use wtp.Store.{Codec, Disk, Faults, StoreError, with_lock}
use wtp.State.{WorktreeState, State, empty_state, is_legacy, is_zero, expiration_time, load_state}

-- `isExpired`: `now.Sub(exp) > retention`
unfoldable pub is_expired : ℕ → ℕ → WorktreeState → Bool
unfolding expiration_time
is_expired now retention ws =
    ws.archived && (not (is_zero (expiration_time ws)) && ltb (expiration_time ws + retention) now)

abbrev pub is_reapable : ℕ → ℕ → WorktreeState → Bool
is_reapable now retention ws = is_legacy ws || is_expired now retention ws

unfoldable pub any_reapable : ℕ → ℕ → Dict WorktreeState → Bool
any_reapable now retention [] = false
any_reapable now retention ((key, ws) ∷ m) =
    is_reapable now retention ws || any_reapable now retention m

-- The loop over the map as it was, which deletes from the map and counts the legacy entries.
unfoldable pub reap_entries :
    ℕ → ℕ → Dict WorktreeState → Dict WorktreeState × ℕ → Dict WorktreeState × ℕ
reap_entries now retention [] (m, legacy_count) = (m, legacy_count)
reap_entries now retention ((key, ws) ∷ rest) (m, legacy_count) = reap_entries now retention rest (
    if is_legacy ws
    then (erase key m, legacy_count + 1)
    else if is_expired now retention ws
    then (erase key m, legacy_count)
    else (m, legacy_count))

abbrev pub reaped : ℕ → ℕ → State → Dict WorktreeState × ℕ
reaped now retention st = reap_entries now retention st.worktrees (st.worktrees, 0)

module _ (codec : Codec State) where
  legacy_of : ℕ → ℕ → Result StoreError State → ℕ
  legacy_of now retention (err e) = 0
  legacy_of now retention (ok st) = (reaped now retention st).1

  reap_locked :
      ℕ → ℕ → Faults → Disk → Result StoreError (Unit {0}) × Disk → Result StoreError ℕ × Disk
  unfolding legacy_of
  reap_locked now retention faults disk (err e, disk') = (err e, disk')
  reap_locked now retention faults disk (ok _, disk') =
      (ok (legacy_of now retention (load_state codec faults disk)), disk')

  reap_loaded : ℕ → ℕ → Faults → Disk → Result StoreError State → Result StoreError ℕ × Disk
  unfolding reap_locked
  reap_loaded now retention faults disk (err e) = (err e, disk)
  reap_loaded now retention faults disk (ok st) =
      if any_reapable now retention st.worktrees
      then reap_locked now retention faults disk (
          with_lock codec empty_state
            (λ cur. ok (record { worktrees = (reaped now retention cur).0 })) faults disk)
      else (ok 0, disk)

  -- `Reap`: the number of legacy entries, which the message tells if it is not 0.
  unfoldable pub reap : ℕ → ℕ → Faults → Disk → Result StoreError ℕ × Disk
  unfolding reap_loaded
  reap now retention faults disk =
      reap_loaded now retention faults disk (load_state codec faults disk)
