-- ===== src/State/Archiving/Order.antt =====
-- The state is written before git is touched, and git is touched only if that succeeded.
use mathlib.Core.List.{append-nil}
use wtp.Base.Lists.{append_self}
use wtp.Base.{◌≡◌, ◌↔◌, refl, sym, ap, ◌∙◌, Bool, true, ◌&&◌, List, [], ◌++◌, arith}
use wtp.Base.Result.{Result, ok, err}
use wtp.Base.Text.{Str}
use wtp.Command.{Executor}
use wtp.Store.{Codec, IsFaithful, Disk, Faults, StoreError}
use wtp.State.{WorktreeState, State, set_archived_full, put}
use wtp.State.Entries.{IsEdit, set_archived_full-IsEdit, modify-err}
use wtp.State.Archiving.{
  World, Warning, Outcome, fine, not_run, failed, remove_warnings, delete_warnings, recorded,
  is_fine,
}
use wtp.State.Archiving.{cleanup, perform_archive}

quiet :
    (removed deleted : Outcome) (ws : List Warning)
    → (ws ++ (remove_warnings removed ++ delete_warnings deleted) ≡ ws)
    → (is_fine removed && is_fine deleted) ≡ true
quiet fine fine ws h = refl
quiet fine (not_run e) ws h = absurd (append_self ws _ [] h)
quiet fine (failed e) ws h = absurd (append_self ws _ [] h)
quiet (not_run e) deleted ws h = absurd (append_self ws _ _ h)
quiet (failed e) deleted ws h = absurd (append_self ws _ _ h)

loud :
    (removed deleted : Outcome) (ws : List Warning)
    → (is_fine removed && is_fine deleted) ≡ true
    → ws ++ (remove_warnings removed ++ delete_warnings deleted) ≡ ws
loud fine fine ws h = append-nil ws
loud fine (not_run e) ws h = cc
loud fine (failed e) ws h = cc
loud (not_run e) deleted ws h = cc
loud (failed e) deleted ws h = cc

module _ {G : Type 0} (execute : Executor G) (codec : Codec State) (faithful : IsFaithful codec)
    (ws : WorktreeState) (w : World G) where
  cleanup-quiet_at :
      (disk : Disk)
      → ((cleanup execute ws (record w { disk = disk })).0 ≡ true)
        ↔ ((cleanup execute ws (record w { disk = disk })).1.warnings ≡ w.warnings)
  unfolding cleanup
  cleanup-quiet_at disk = (loud _ _ w.warnings, quiet _ _ w.warnings)

  recorded-err :
      (written : Result StoreError (Unit {0})) (disk : Disk) (e : StoreError)
      → (recorded execute codec ws w written disk).0 ≡ err e
      → (written ≡ err e)
        × ((recorded execute codec ws w written disk).1 ≡ record w { disk = disk })
  unfolding recorded
  recorded-err (ok _) disk e h = cc
  recorded-err (err f) disk e h = (cc, refl)

  recorded-ok :
      (written : Result StoreError (Unit {0})) (disk : Disk) (clean : Bool)
      → (recorded execute codec ws w written disk).0 ≡ ok clean
      → (written ≡ ok tt)
        × (recorded execute codec ws w written disk
            ≡ (ok clean, (cleanup execute ws (record w { disk = disk })).1))
        × ((cleanup execute ws (record w { disk = disk })).0 ≡ clean)
  unfolding recorded
  recorded-ok (ok _) disk clean h = (refl, ground arith, ground arith)
  recorded-ok (err f) disk clean h = cc

  module _ (faults : Faults) (key : Str) where
    -- If the state cannot be written, the repository, the state file and the warnings are as they were.
    pub perform_archive-err :
        (e : StoreError)
        → (perform_archive execute codec faults key ws w).0 ≡ err e
        → ((perform_archive execute codec faults key ws w).1.git ≡ w.git)
          × ((perform_archive execute codec faults key ws w).1.warnings ≡ w.warnings)
          × ((perform_archive execute codec faults key ws w).1.disk.file ≡ w.disk.file)
    unfolding perform_archive
    perform_archive-err e h =
        let (written, disk) = set_archived_full codec key ws faults w.disk in
        let (refused, same) = recorded-err written disk e h in
        (
          ap (λ (v : World G). v.git) same,
          ap (λ (v : World G). v.warnings) same,
          ap (λ (v : World G). v.disk.file) same
              ∙ (unfold set_archived_full in
                  modify-err codec faithful (put key ws) faults w.disk e refused),
        )

    -- If the archive is reported, clean or not, the state file has the entry, and nothing else in it
    -- has changed. It is reported clean exactly if no warning was printed.
    pub perform_archive-IsEdit :
        (clean : Bool)
        → (perform_archive execute codec faults key ws w).0 ≡ ok clean
        → IsEdit codec faithful key
            (λ _. ws)
            w.disk
            (perform_archive execute codec faults key ws w).1.disk
          × ((clean ≡ true)
              ↔ ((perform_archive execute codec faults key ws w).1.warnings ≡ w.warnings))
    unfolding perform_archive cleanup
    perform_archive-IsEdit clean h =
        let (written, disk) = set_archived_full codec key ws faults w.disk in
        let (done, same, flag) = recorded-ok written disk clean h in
        let left : (recorded execute codec ws w written disk).1.disk ≡ disk =
          ap (λ (r : Result StoreError Bool × World G). r.1.disk) same in
        let printed : (recorded execute codec ws w written disk).1.warnings
            ≡ (cleanup execute ws (record w { disk = disk })).1.warnings =
          ap (λ (r : Result StoreError Bool × World G). r.1.warnings) same in
        let (loudly, quietly) = cleanup-quiet_at disk in
        (
          rw left (set_archived_full-IsEdit codec faithful key ws faults w.disk done),
          (λ c. printed ∙ loudly (flag ∙ c), λ q. sym flag ∙ quietly (sym printed ∙ q)),
        )
