-- ===== src/Tests/Stores.antt =====
-- The state file and the cache file at concrete contents.
use mathlib.Core.Path.{subst}
use wtp.Base.{ℕ, ◌≡◌, refl, true, false, none, [], ◌∷◌}
use wtp.Base.Result.{ok, ok-injective}
use wtp.Base.Text.{Str, str, ◌==◌}
use wtp.Base.Dict.{lookup, NodupKeys}
use wtp.Store.{Disk, Faults, rename_failed, with_lock}
use wtp.Store.Atomic.{no_faults, with_lock-err}
use wtp.State.{WorktreeState, State, no_state, empty_state, put, load_state, is_legacy}
use wtp.Cache.{WorktreeCache}
use wtp.Maintenance.Reap.{reap, any_reapable, reap_entries, is_expired}
use wtp.Maintenance.Reap.Removal.{IsReaped, reap-IsReaped}
use wtp.Tests.Codec.{state_codec, state_codec-IsFaithful}

abbrev pub archived_at : ℕ → Str → WorktreeState
archived_at time commit = record {
  archived = true;
  archived_at = time;
  pr_closed_at = 0;
  commit_sha = commit;
  branch = str "x";
  worktree_path = str "/w/x";
  suppress_auto_archive = false;
}

-- A legacy entry, one that is old, and one that is not.
abbrev pub three_entries : State
three_entries = record {
  worktrees =
      (str "o/r::x", archived_at 5 [])
      ∷ (str "o/r::y", archived_at 5 (str "c1"))
      ∷ (str "o/r::z", archived_at 90 (str "c2"))
      ∷ [];
}

abbrev pub full_disk : Disk
full_disk = record { file = state_codec.encode three_entries; tmp = none }

abbrev pub no_disk : Disk
no_disk = record { file = none; tmp = none }

abbrev pub rename_fails : Faults
rename_fails = record {
  ensure_dir = false;
  lock = false;
  read = false;
  write = none;
  rename = true;
  remove = true;
}

with_lock-err_example :
    (with_lock state_codec empty_state
      (λ st. ok (put (str "k") no_state st))
      rename_fails
      full_disk).1.file
    ≡ full_disk.file
unfolding with_lock
with_lock-err_example =
    with_lock-err state_codec state_codec-IsFaithful empty_state
      (λ st. ok (put (str "k") no_state st)) rename_fails full_disk rename_failed refl

abbrev pub entry : WorktreeCache
entry = record {
  pr_number = 7;
  pr_state = str "OPEN";
  pr_title = str "t";
  ci_status = str "ok";
  updated_at = 0;
}

reap-IsReaped_example :
    IsReaped state_codec state_codec-IsFaithful 100 50 1 full_disk
      (reap state_codec 100 50 no_faults full_disk).1
unfolding reap load_state any_reapable is_legacy ◌==◌ with_lock reap_entries is_expired lookup
reap-IsReaped_example =
    reap-IsReaped state_codec state_codec-IsFaithful 100 50 no_faults full_disk 1
      (λ st h.
        subst (λ (s : State). NodupKeys s.worktrees) (ok-injective h) (refl, (refl, (refl, tt))))
      refl
