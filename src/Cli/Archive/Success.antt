-- ===== src/Cli/Archive/Success.antt =====
-- When `wtp archive` is carried out, and what it does then.
use wtp.Base.{ℕ, ◌≡◌, ◌⊎◌, refl, Bool, true, false, Option, some, List, [], ◌∷◌}
use wtp.Base.{if◌then◌else◌, ◌≢◌, inl, inr}
use wtp.Base.Result.{Result, ok, err}
use wtp.Base.Text.{Str, ◌==◌}
use wtp.Git.{Worktree}
use wtp.Remote.{RepoIdentifier, state_key}
use wtp.Command.{Executor, git_worktree_remove, git_branch_force_delete}
use wtp.Store.{Codec}
use wtp.Store.Atomic.{no_faults}
use wtp.Store.Success.{IsTotal, written}
use wtp.State.{State, entry_at, put, load_state, is_archived}
use wtp.State.Archiving.{World, cleanup, perform_archive}
use wtp.State.Archiving.Success.{perform_archive-written, cleanup-disk, cleanup-git}
use wtp.Cli.Resolver.{is_main_name}
use wtp.Cli.Archive.{Queries, ArchiveError, found_path, usable, not_current, find_archive_target}
use wtp.Cli.Archive.{unpushed, validate_archive_safety, clean_status, fresh_state, fresh}
use wtp.Cli.Archive.{build_archive_state, archive_with, performed, archive_command_core}
use wtp.Cli.Archive.{archive_unreported, told, not_printed}
use wtp.Cli.Archive.Safety.{IsTarget, IsSafe}

module _ (pwd : Option Str) (branch cwd : Str) (worktrees : List Worktree) (wt : Worktree)
    (found : IsTarget pwd branch cwd worktrees wt) where
  usable-ok : usable pwd branch cwd (some wt) ≡ ok wt
  unfolding usable not_current
  usable-ok = rw (found.linked, found.target_is, found.here_is, found.elsewhere)

  find_archive_target-ok : find_archive_target pwd branch cwd worktrees ≡ ok wt
  unfolding find_archive_target found_path
  find_archive_target-ok = rw (found.addressed, found.listed) usable-ok

module _ {G : Type 0} (queries : Queries G) where
  unpushed-false : (r : Result Str Bool) → r ≢ ok true → unpushed r ≡ false
  unfolding unpushed
  unpushed-false (ok true) h = absurd (h refl)
  unpushed-false (ok false) h = refl
  unpushed-false (err e) h = refl

  validate_archive_safety-safe :
      (wt : Worktree) (force : Bool) (g : G)
      → (force ≡ true) ⊎ IsSafe queries wt g
      → validate_archive_safety queries wt force g ≡ ok tt
  unfolding validate_archive_safety clean_status
  validate_archive_safety-safe wt true g s = refl
  validate_archive_safety-safe wt false g (inl h) = cc
  validate_archive_safety-safe wt false g (inr (clean, pushed)) =
      rw (clean, clean_status, unpushed-false (queries.has_unpushed_commits wt.branch g) pushed)

  module _ (codec : Codec State) (total : IsTotal codec) (execute : Executor G) (pwd : Option Str)
      (now : ℕ) (branch cwd : Str) (force : Bool) (worktrees : List Worktree) (wt : Worktree)
      (repo_id : RepoIdentifier) (w : World G) (st : State) (can_print : Bool) where
    -- The worktree's state has been put into the file, and nothing else has happened.
    abbrev pub recorded_world : World G
    recorded_world = record w {
      disk = written codec total (put (state_key repo_id branch) (fresh_state queries now wt) st);
    }

    abbrev pub archived_run : Result ArchiveError Bool × World G
    archived_run =
        archive_command_core queries codec execute can_print no_faults pwd now branch cwd force
          worktrees repo_id w

    is_archived-flag :
        load_state codec no_faults w.disk ≡ ok st
        → is_archived codec (state_key repo_id branch) no_faults w.disk
          ≡ (entry_at st (state_key repo_id branch)).archived
    unfolding is_archived
    is_archived-flag l = rw (l, is_archived)

    build_archive_state-fresh :
        IsTarget pwd branch cwd worktrees wt
        → (force ≡ true) ⊎ IsSafe queries wt w.git
        → load_state codec no_faults w.disk ≡ ok st
        → (entry_at st (state_key repo_id branch)).archived ≡ false
        → build_archive_state queries codec no_faults pwd now
            (state_key repo_id branch)
            branch
            cwd
            force
            worktrees
            w
          ≡ ok (fresh_state queries now wt)
    unfolding build_archive_state fresh
    build_archive_state-fresh found safe l new = rw (
      is_archived-flag l,
      new,
      find_archive_target-ok pwd branch cwd worktrees wt found,
      validate_archive_safety-safe wt force w.git safe,
    )

    -- Where nothing in the file system fails and the state file says that the branch is not archived:
    -- the archive of a linked worktree that does not hold the working directory, and is clean and
    -- pushed unless `--force` is given, is carried out. The state file has the worktree's path, branch
    -- and commit added, and then git is asked to remove the worktree and the branch, both by force.
    -- The command succeeds, and tells whether the clean-up was complete, exactly if its message can be
    -- printed; if not, it fails after all of this is done.
    pub archive_command_core-written :
        (wt.path == []) ≡ false
        → (wt.branch == []) ≡ false
        → is_main_name branch ≡ false
        → IsTarget pwd branch cwd worktrees wt
        → (force ≡ true) ⊎ IsSafe queries wt w.git
        → load_state codec no_faults w.disk ≡ ok st
        → (entry_at st (state_key repo_id branch)).archived ≡ false
        → (archived_run.0 ≡ (
            if can_print
            then ok (cleanup execute (fresh_state queries now wt) recorded_world).0
            else err not_printed))
          × (archived_run.1.disk ≡ recorded_world.disk)
          × (archived_run.1.git
              ≡ (execute
                  (git_branch_force_delete wt.branch ∷ [])
                  (execute (git_worktree_remove wt.path true ∷ []) w.git).1).1)
    unfolding archive_command_core archive_unreported told archive_with performed
    archive_command_core-written path named_branch named found safe l new =
        let same : archived_run
            ≡ told queries codec execute can_print (
                performed queries codec execute (
                  perform_archive execute codec no_faults (state_key repo_id branch)
                    (fresh_state queries now wt) w)) =
          rw (named, build_archive_state-fresh found safe l new) in
        rw
          (
            same,
            perform_archive-written codec total execute (state_key repo_id branch)
                (fresh_state queries now wt) w st l,
          )
          (
            refl,
            cleanup-disk codec total execute (fresh_state queries now wt) recorded_world,
            cleanup-git codec total execute (fresh_state queries now wt) recorded_world path
                named_branch,
          )
