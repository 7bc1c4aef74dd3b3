-- ===== src/State/Archiving/Success.antt =====
-- Where the state can be written, an archive is carried out.
use wtp.Base.{◌≡◌, refl, ap, true, false, [], ◌∷◌}
use wtp.Base.Result.{Result, ok}
use wtp.Base.Text.{Str, ◌==◌}
use wtp.Command.{Executor, git_worktree_remove, git_branch_force_delete}
use wtp.Store.{Codec, Disk, StoreError}
use wtp.Store.Atomic.{no_faults}
use wtp.Store.Success.{IsTotal, written, with_lock-written}
use wtp.State.{WorktreeState, State, empty_state, put, modify, load_state}
use wtp.State.{set_archived_full, clear_archived, entry_at, cleared}
use wtp.State.Archiving.{World, recorded, run_step, cleanup, perform_archive}

module _ (codec : Codec State) (total : IsTotal codec) where
  modify-written :
      (fn : State → State) (disk : Disk) (st : State)
      → load_state codec no_faults disk ≡ ok st
      → modify codec fn no_faults disk ≡ (ok tt, written codec total (fn st))
  unfolding modify load_state
  modify-written fn disk st l =
      with_lock-written codec total empty_state (λ s. ok (fn s)) disk st (fn st) l refl

  pub clear_archived-written :
      (key : Str) (disk : Disk) (st : State)
      → load_state codec no_faults disk ≡ ok st
      → clear_archived codec key no_faults disk
        ≡ (ok tt, written codec total (put key (cleared (entry_at st key)) st))
  unfolding clear_archived
  clear_archived-written key = modify-written (λ st. put key (cleared (entry_at st key)) st)

  module _ {G : Type 0} (execute : Executor G) where
    pub cleanup-disk : (ws : WorktreeState) (w : World G) → (cleanup execute ws w).1.disk ≡ w.disk
    unfolding cleanup
    cleanup-disk ws w = refl

    -- With a path and a branch, the cleanup runs both commands, whatever becomes of the first.
    pub cleanup-git :
        (ws : WorktreeState) (w : World G)
        → (ws.worktree_path == []) ≡ false
        → (ws.branch == []) ≡ false
        → (cleanup execute ws w).1.git
          ≡ (execute
              (git_branch_force_delete ws.branch ∷ [])
              (execute (git_worktree_remove ws.worktree_path true ∷ []) w.git).1).1
    unfolding cleanup
    cleanup-git ws w p b = rw (p, b, run_step)

    -- Where nothing in the file system fails and the state file can be read, an archive succeeds: the
    -- state file has the entry added to what it held, and then, from there, the cleanup has run.
    pub perform_archive-written :
        (key : Str) (ws : WorktreeState) (w : World G) (st : State)
        → load_state codec no_faults w.disk ≡ ok st
        → perform_archive execute codec no_faults key ws w ≡ (
          ok (cleanup execute ws (record w { disk = written codec total (put key ws st) })).0,
          (cleanup execute ws (record w { disk = written codec total (put key ws st) })).1,
        )
    unfolding perform_archive recorded set_archived_full
    perform_archive-written key ws w st l =
        ap (λ (r : Result StoreError (Unit {0}) × Disk). recorded execute codec ws w r.0 r.1)
          (modify-written (put key ws) w.disk st l)
