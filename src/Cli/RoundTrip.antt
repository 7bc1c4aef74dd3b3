-- ===== src/Cli/RoundTrip.antt =====
-- `wtp unarchive` after `wtp archive`.
use wtp.Base.{ℕ, ◌≡◌, ◌⊎◌, refl, ap, ◌∙◌, Bool, true, false, Option, some, List, []}
use wtp.Base.{◌∷◌, arith, if◌then◌else◌}
use wtp.Base.Text.Laws.{eq_iff}
use wtp.Base.Result.{Result, ok, err}
use wtp.Base.Text.{Str, ◌==◌}
use wtp.Base.Dict.{lookup, lookup-insert}
use wtp.FilePath.{dir}
use wtp.Git.{Worktree}
use wtp.Remote.{RepoIdentifier, state_key}
use wtp.Command.{Command, Executor, git_worktree_add}
use wtp.Store.{Codec, IsFaithful, Disk}
use wtp.Store.Atomic.{no_faults}
use wtp.Store.Success.{IsTotal, written, load-written}
use wtp.State.{WorktreeState, State, empty_state, entry_at, put, cleared, load_state}
use wtp.State.Archiving.{World}
use wtp.Cli.Resolver.{is_main_name}
use wtp.Cli.Archive.{Queries, fresh_state}
use wtp.Cli.Archive.Safety.{IsTarget, IsSafe}
use wtp.Cli.Archive.Success.{archived_run, archive_command_core-written}
use wtp.Cli.Unarchive.{
  UnarchiveError, Surroundings, add_answer, resolve_unarchive_path, unarchive_command_core,
  not_printed,
}
use wtp.Cli.Unarchive.Restore.{IsRestorable}
use wtp.Cli.Unarchive.Success.{unarchive-written}

module _ {G : Type 0} (queries : Queries G) (around : Surroundings G) (execute : Executor G)
    (codec : Codec State) (faithful : IsFaithful codec) (total : IsTotal codec)
    (can_print : Bool) where
  original_place :
      (original branch : Str) (repo_id : RepoIdentifier) (g : G)
      → (original == []) ≡ false
      → around.is_dir (dir original) g ≡ true
      → around.absent original g ≡ true
      → resolve_unarchive_path queries around original repo_id branch g ≡ original
  unfolding resolve_unarchive_path
  original_place original branch repo_id g p d a = rw (p, d, a)

  module _ (pwd : Option Str) (now : ℕ) (branch cwd : Str) (force : Bool)
      (worktrees : List Worktree) (wt : Worktree) (repo_id : RepoIdentifier) (w : World G)
      (st : State) where
    abbrev pub after_archive : World G
    after_archive =
        (archived_run queries codec total execute pwd now branch cwd force worktrees wt repo_id w st
          can_print).1

    -- The entry of the archive, and the state with it.
    abbrev recorded_entry : WorktreeState
    recorded_entry = fresh_state queries now wt

    abbrev recorded_state : State
    recorded_state = put (state_key repo_id branch) recorded_entry st

    -- `git worktree add -b <branch> <path> <commit>` at the worktree's old path and commit.
    abbrev pub add_back : Command
    add_back =
        git_worktree_add wt.path wt.head
          (record { force = false; detach = false; branch = branch; track = [] })

    load_state-written : (s : State) → load_state codec no_faults (written codec total s) ≡ ok s
    unfolding load_state
    load_state-written = load-written codec total empty_state faithful

    stored-archive :
        lookup (state_key repo_id branch) recorded_state.worktrees ≡ some recorded_entry
    stored-archive =
        let key = state_key repo_id branch in
        ground (arith, lookup-insert key key recorded_entry st.worktrees, eq_iff key key)

    load-archive :
        (disk : Disk)
        → disk ≡ written codec total recorded_state
        → load_state codec no_faults disk ≡ ok recorded_state
    load-archive disk d =
        ap (λ (v : Disk). load_state codec no_faults v) d ∙ load_state-written recorded_state

    abbrev pub after_unarchive : Result UnarchiveError Str × World G
    after_unarchive =
        unarchive_command_core queries around execute codec no_faults can_print branch repo_id
          after_archive

    -- Where nothing in the file system fails: a linked worktree that does not hold the working
    -- directory, is clean and pushed unless `--force` is given, is not archived and has a path, a
    -- branch and a commit, is back after an archive and an unarchive. If after the archive git still
    -- has the commit and the branch is gone, the parent directory is there and the path is free, and
    -- git can add a worktree: the unarchive adds a worktree at the old path and commit with the
    -- branch, and leaves in the state file the cleared entry and all other entries as they were. It
    -- succeeds exactly if its message can be printed after that.
    pub unarchive-archive :
        (g : G)
        → (wt.path == []) ≡ false
        → (wt.branch == []) ≡ false
        → (wt.head == []) ≡ false
        → is_main_name branch ≡ false
        → IsTarget pwd branch cwd worktrees wt
        → (force ≡ true) ⊎ IsSafe queries wt w.git
        → load_state codec no_faults w.disk ≡ ok st
        → (entry_at st (state_key repo_id branch)).archived ≡ false
        → queries.commit_exists wt.head after_archive.git ≡ ok true
        → queries.branch_exists branch after_archive.git ≡ ok false
        → around.is_dir (dir wt.path) after_archive.git ≡ true
        → around.absent wt.path after_archive.git ≡ true
        → around.make_dir (dir wt.path) after_archive.git ≡ (true, g)
        → add_answer (execute (add_back ∷ []) g).0 ≡ ok tt
        → (after_unarchive.0 ≡ (if can_print then ok wt.path else err not_printed))
          × (after_unarchive.1.git ≡ around.hooks wt.path (execute (add_back ∷ []) g).1)
          × ((final : State) × (load_state codec no_faults after_unarchive.1.disk ≡ ok final)
              × ((j : Str)
                  → lookup j final.worktrees ≡ (
                      if state_key repo_id branch == j
                      then some (cleared recorded_entry)
                      else lookup j st.worktrees)))
    unarchive-archive g p b h named found safe l new there free is_dir absent made added =
        let (_, disk, _) =
          archive_command_core-written queries codec total execute pwd now branch cwd force
            worktrees wt repo_id w st can_print p b named found safe l new in
        let place = original_place wt.path branch repo_id after_archive.git p is_dir absent in
        let restorable : IsRestorable codec (state_key repo_id branch) no_faults after_archive.disk
            recorded_entry =
          record {
            state = recorded_state;
            loaded = load-archive after_archive.disk disk;
            stored = stored-archive;
            archived = refl;
            has_commit = h;
          } in
        let (path, git, disk') =
          unarchive-written queries around execute codec total branch repo_id after_archive
            recorded_entry restorable can_print g there free (rw place made) (rw place added) in
        let key = state_key repo_id branch in
        (
          path ∙ ap (λ (q : Str). if can_print then ok q else err not_printed) place,
          rw place at git,
          (
            put key (cleared recorded_entry) recorded_state,
            ap (λ (v : Disk). load_state codec no_faults v) disk'
                ∙ load_state-written (put key (cleared recorded_entry) recorded_state),
            λ j. ground (
              arith,
              lookup-insert key j (cleared recorded_entry) recorded_state.worktrees,
              lookup-insert key j recorded_entry st.worktrees,
            ),
          ),
        )
