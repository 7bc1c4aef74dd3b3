-- ===== src/Maintenance/Sync/Success.antt =====
-- When a sync does archive a worktree.
use wtp.Base.{◌≡◌, refl, false, some}
use wtp.Base.Result.{ok}
use wtp.Remote.{storage_path}
use wtp.Github.{PrInfo}
use wtp.Store.Atomic.{no_faults}
use wtp.Store.Success.{IsTotal, written}
use wtp.State.{State, put, load_state}
use wtp.State.Archiving.{World, cleanup}
use wtp.State.Archiving.Success.{perform_archive-written}
use wtp.Maintenance.Checks.{BranchCheck}
use wtp.Maintenance.Sync.{SyncWorld, Runner, archive_state, try_clean, archived_as}
use wtp.Maintenance.Sync.{path_in_use, try_archive}

module _ {G : Type 0} (r : Runner G) (total : IsTotal r.state_codec) (c : BranchCheck) (pr : PrInfo)
    (s : SyncWorld G) (st : State) where
  -- The archive has been put into the state file, and nothing else has happened.
  abbrev pub recorded_world : World G
  recorded_world = record s.world {
    disk = written r.state_codec total (put c.key (archive_state r c.wt pr) st);
  }

  -- Where nothing in the file system fails: a worktree that is clean and in which no process works
  -- is archived under its branch and PR. The state file has the entry added to what it held, and
  -- then the removal of the worktree and of the branch have run.
  try_archive-written :
      r.faults ≡ no_faults
      → r.is_worktree_dirty c.wt.path s.world.git ≡ ok false
      → path_in_use c.wt.path r.busy ≡ false
      → load_state r.state_codec no_faults s.world.disk ≡ ok st
      → ((try_archive r c pr s).0
          ≡ some (record {
            repo = storage_path r.repo_id;
            branch = c.wt.branch;
            pr_number = pr.number;
            pr_state = pr.state;
          }))
        × ((try_archive r c pr s).1.world
            ≡ (cleanup r.execute (archive_state r c.wt pr) recorded_world).1)
  unfolding try_archive try_clean archived_as
  try_archive-written works clean idle l =
      rw
        (
          clean,
          idle,
          works,
          perform_archive-written r.state_codec total r.execute c.key (archive_state r c.wt pr)
              s.world st l,
        )
        (refl, refl)
