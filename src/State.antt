-- ===== src/State.antt =====
-- internal/state/state.go: the archive state of every worktree, kept in state.json by key. A time
-- is the number of nanoseconds since the zero time, so that 0 is `time.Time{}`.
pub mod Entries
pub mod Archiving
use wtp.Base.{ℕ, Bool, true, false, ◌&&◌, Option, none, some, List, [], if◌then◌else◌, nat_eq}
use wtp.Base.Result.{Result, ok, err}
use wtp.Base.Text.{Str, ◌==◌}
use wtp.Base.Dict.{Dict, lookup, insert}
use wtp.Store.{Codec, Disk, Faults, StoreError, load, save, with_lock}

pub record WorktreeState : Type 0 where
  pub archived : Bool
  pub archived_at : ℕ
  pub pr_closed_at : ℕ
  pub commit_sha : Str
  pub branch : Str
  pub worktree_path : Str
  pub suppress_auto_archive : Bool

-- The zero value, which Go reads at a key that a map lacks.
abbrev pub no_state : WorktreeState
no_state = record {
  archived = false;
  archived_at = 0;
  pr_closed_at = 0;
  commit_sha = [];
  branch = [];
  worktree_path = [];
  suppress_auto_archive = false;
}

pub record State : Type 0 where
  pub worktrees : Dict WorktreeState

abbrev pub empty_state : State
empty_state = record { worktrees = [] }

abbrev pub zero_or : Option WorktreeState → WorktreeState
zero_or none = no_state
zero_or (some ws) = ws

-- `st.Worktrees[key]`
abbrev pub entry_at : State → Str → WorktreeState
entry_at st key = zero_or (lookup key st.worktrees)

unfoldable pub is_legacy : WorktreeState → Bool
is_legacy ws = ws.archived && ws.commit_sha == []

abbrev pub is_zero : ℕ → Bool
is_zero t = nat_eq t 0

unfoldable pub expiration_time : WorktreeState → ℕ
expiration_time ws = if is_zero ws.pr_closed_at then ws.archived_at else ws.pr_closed_at

abbrev pub put : Str → WorktreeState → State → State
put key ws st = record { worktrees = insert key ws st.worktrees }

abbrev pub Written : Type 0
Written = Result StoreError (Unit {0}) × Disk

-- "Keep entry.Branch"
abbrev pub cleared : WorktreeState → WorktreeState
cleared entry = record entry {
  archived = false;
  commit_sha = [];
  archived_at = 0;
  pr_closed_at = 0;
  worktree_path = [];
  suppress_auto_archive = true;
}

module _ (codec : Codec State) where
  -- `Store.Load`, `Store.Save` and `Store.WithLock` at the state file.
  unfoldable pub load_state : Faults → Disk → Result StoreError State
  unfolding load
  load_state = load codec empty_state

  unfoldable pub save_state : Faults → State → Disk → Written
  unfolding save
  save_state = save codec

  unfoldable pub modify : (State → State) → Faults → Disk → Written
  unfolding with_lock
  modify fn = with_lock codec empty_state (λ st. ok (fn st))

  unfoldable pub is_archived : Str → Faults → Disk → Bool
  unfolding load_state
  is_archived key faults disk = elim (load_state faults disk) [
    | err e ↦ false
    | ok st ↦ (entry_at st key).archived
  ]

  unfoldable pub set_archived : Str → Bool → Faults → Disk → Written
  unfolding modify
  set_archived key archived =
      modify (λ st. put key (record (entry_at st key) { archived = archived }) st)

  unfoldable pub set_archived_full : Str → WorktreeState → Faults → Disk → Written
  unfolding modify
  set_archived_full key ws = modify (put key ws)

  unfoldable pub clear_archived : Str → Faults → Disk → Written
  unfolding modify
  clear_archived key = modify (λ st. put key (cleared (entry_at st key)) st)
