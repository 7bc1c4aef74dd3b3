-- ===== src/Maintenance/Reap/Success.antt =====
-- A reap succeeds where the state file can be read and written.
use wtp.Base.{ℕ, ◌≡◌, refl, ap, sym, Bool-cases, inl, inr}
use wtp.Base.Result.{ok}
use wtp.Store.{Codec, Disk}
use wtp.Store.Atomic.{no_faults}
use wtp.Store.Success.{IsTotal, with_lock-written}
use wtp.State.{State, empty_state, load_state}
use wtp.Maintenance.Reap.{any_reapable, reaped, legacy_of, reap_locked, reap_loaded, reap}
use wtp.Maintenance.Reap.Removal.{legacies, count-reaped, legacies-any_reapable}

module _ (codec : Codec State) (total : IsTotal codec) (now retention : ℕ) (disk : Disk)
    (st : State) where
  reap_loaded-legacies :
      load_state codec no_faults disk ≡ ok st
      → (reap_loaded codec now retention no_faults disk (ok st)).0 ≡ ok (legacies st.worktrees)
  unfolding reap_loaded reap_locked legacy_of load_state
  reap_loaded-legacies l = elim (Bool-cases (any_reapable now retention st.worktrees)) [
    | inl due ↦
        rw
          (
            due,
            with_lock-written codec total empty_state
                (λ cur. ok (record { worktrees = (reaped now retention cur).0 })) disk st
                (record { worktrees = (reaped now retention st).0 }) l refl,
            l,
          )
          (ap ok (count-reaped now retention st))
    | inr idle ↦ rw idle (ap ok (sym (legacies-any_reapable now retention st.worktrees idle)))
  ]

  -- Where nothing in the file system fails and the state file can be read, a reap succeeds, and
  -- counts the legacy entries that were in the file.
  reap-legacies :
      load_state codec no_faults disk ≡ ok st
      → (reap codec now retention no_faults disk).0 ≡ ok (legacies st.worktrees)
  unfolding reap
  reap-legacies l = rw l (reap_loaded-legacies l)
