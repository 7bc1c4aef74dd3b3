-- ===== src/State/Entries.antt =====
-- What the operations on the state file do to its entries.
use wtp.Base.{◌≡◌, sym, ◌∙◌, Bool, some, if◌then◌else◌}
use wtp.Base.Result.{ok, err}
use wtp.Base.Text.{Str, ◌==◌}
use wtp.Base.Dict.{lookup, lookup-insert}
use wtp.Store.{Codec, IsFaithful, Disk, Faults, StoreError}
use wtp.Store.Atomic.{no_faults, with_lock-IsMutation, with_lock-err}
use wtp.State.{WorktreeState, State, empty_state, entry_at, put, cleared, modify, load_state}
use wtp.State.{set_archived, set_archived_full, clear_archived}

module _ (codec : Codec State) (faithful : IsFaithful codec) where
  -- What a reader finds in the state file.
  abbrev pub HoldsState : Disk → State → Type 0
  HoldsState disk st = load_state codec (no_faults) disk ≡ ok st

  -- The file holds what it held, but for `key`, where `change` was applied to the entry.
  pub record IsEdit (key : Str) (change : WorktreeState → WorktreeState) (before after : Disk)
      : Type 0 where
    pub old : State
    pub new : State
    pub was : HoldsState before old
    pub now : HoldsState after new
    pub entries :
        (j : Str)
        → lookup j new.worktrees
          ≡ (if key == j then some (change (entry_at old key)) else lookup j old.worktrees)

  modify-IsEdit :
      (key : Str) (change : WorktreeState → WorktreeState) (faults : Faults) (disk : Disk)
      → (modify codec (λ st. put key (change (entry_at st key)) st) faults disk).0 ≡ ok tt
      → IsEdit key change disk
          (modify codec (λ st. put key (change (entry_at st key)) st) faults disk).1
  unfolding modify load_state
  modify-IsEdit key change faults disk h =
      let m =
        with_lock-IsMutation codec faithful empty_state
          (λ st. ok (put key (change (entry_at st key)) st)) faults disk h in
      record {
        old = m.current;
        new = put key (change (entry_at m.current key)) m.current;
        was = m.was;
        now = m.now ∙ sym m.computed;
        entries = λ j. lookup-insert key j (change (entry_at m.current key)) m.current.worktrees;
      }

  -- An archive that is recorded stands in the file as it was given, and nothing else has changed.
  pub set_archived_full-IsEdit :
      (key : Str) (ws : WorktreeState) (faults : Faults) (disk : Disk)
      → (set_archived_full codec key ws faults disk).0 ≡ ok tt
      → IsEdit key (λ _. ws) disk (set_archived_full codec key ws faults disk).1
  unfolding set_archived_full
  set_archived_full-IsEdit key ws = modify-IsEdit key (λ _. ws)

  -- Clearing an archive that succeeds changes the entry of its key alone: that one is not archived
  -- any more, is kept from being archived by a sync, has no metadata, and keeps its branch.
  pub clear_archived-IsEdit :
      (key : Str) (faults : Faults) (disk : Disk)
      → (clear_archived codec key faults disk).0 ≡ ok tt
      → IsEdit key cleared disk (clear_archived codec key faults disk).1
  unfolding clear_archived
  clear_archived-IsEdit key = modify-IsEdit key cleared

  -- Setting the flag that succeeds changes that flag in the entry of its key and nothing else.
  pub set_archived-IsEdit :
      (key : Str) (flag : Bool) (faults : Faults) (disk : Disk)
      → (set_archived codec key flag faults disk).0 ≡ ok tt
      → IsEdit key
          (λ ws. record ws { archived = flag })
          disk
          (set_archived codec key flag faults disk).1
  unfolding set_archived
  set_archived-IsEdit key flag = modify-IsEdit key (λ ws. record ws { archived = flag })

  -- An edit that fails leaves the file as it was.
  pub modify-err :
      (fn : State → State) (faults : Faults) (disk : Disk) (e : StoreError)
      → (modify codec fn faults disk).0 ≡ err e
      → (modify codec fn faults disk).1.file ≡ disk.file
  unfolding modify
  modify-err fn faults disk e =
      with_lock-err codec faithful empty_state (λ st. ok (fn st)) faults disk e
