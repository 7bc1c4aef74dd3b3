-- ===== src/Cli/Unarchive/Restore.antt =====
-- What a restored worktree was restored from, and what the state file says of it afterwards.
use wtp.Base.{
  ◌≡◌, refl, sym, ap, ◌∙◌, Bool, true, false, Option, none, some, [], ◌∷◌, arith, inl, inr,
  Bool-cases,
}
use wtp.Base.Result.{Result, ok, err, ◌>>=◌, Result-cases, ok-injective}
use wtp.Base.Text.{Str, ◌==◌}
use wtp.Base.Dict.{lookup}
use wtp.Remote.{RepoIdentifier, state_key}
use wtp.FilePath.{dir}
use wtp.Command.{Command, Executor, git_worktree_add}
use wtp.Store.{Codec, IsFaithful, Disk, Faults, StoreError}
use wtp.State.{WorktreeState, State, cleared, load_state, clear_archived}
use wtp.State.Entries.{IsEdit, clear_archived-IsEdit}
use wtp.State.Archiving.{World}
use wtp.Cli.Archive.{Queries}
use wtp.Cli.Unarchive.{UnarchiveError, Surroundings, archived_entry, entry_of, load_archived_entry}
use wtp.Cli.Unarchive.{commit_answer, branch_answer, validate_unarchive_prereqs}
use wtp.Cli.Unarchive.{resolve_unarchive_path, cleared_with, added_with, create_with, restore_with}
use wtp.Cli.Unarchive.{checked_entry, unarchive_command_core}
use wtp.Cli.Unarchive.{add_answer, unarchive_unreported, told_path}

-- An entry from which a worktree can be restored.
pub record IsRestorable (codec : Codec State) (key : Str) (faults : Faults) (disk : Disk)
    (entry : WorktreeState) : Type 0 where
  pub state : State
  pub loaded : load_state codec faults disk ≡ ok state
  pub stored : lookup key state.worktrees ≡ some entry
  pub archived : entry.archived ≡ true
  pub has_commit : (entry.commit_sha == []) ≡ false

archived_entry-ok :
    (o : Option WorktreeState) (entry : WorktreeState)
    → archived_entry o ≡ ok entry
    → (o ≡ some entry) × (entry.archived ≡ true) × ((entry.commit_sha == []) ≡ false)
unfolding archived_entry
archived_entry-ok none entry h = cc
archived_entry-ok (some e) entry h = elim (Bool-cases e.archived) [
  | inr a ↦ ground (arith, a)
  | inl a ↦ elim (Bool-cases (e.commit_sha == [])) [
    | inl s ↦ ground (arith, a, s)
    | inr s ↦
        let same : e ≡ entry = ok-injective (simp (a, s) at h) in
        (
          ap some same,
          ap (λ (v : WorktreeState). v.archived) (sym same) ∙ a,
          ap (λ (v : WorktreeState). v.commit_sha == []) (sym same) ∙ s,
        )
  ]
]

load_archived_entry-IsRestorable :
    (codec : Codec State) (key : Str) (faults : Faults) (disk : Disk) (entry : WorktreeState)
    → load_archived_entry codec key faults disk ≡ ok entry
    → IsRestorable codec key faults disk entry
unfolding load_archived_entry entry_of
load_archived_entry-IsRestorable codec key faults disk entry h =
    elim (Result-cases (load_state codec faults disk)) [
      | inl (st, l) ↦
          let (s, a, c) = archived_entry-ok (lookup key st.worktrees) entry (rw l at h) in
          record { state = st; loaded = l; stored = s; archived = a; has_commit = c }
      | inr (e, l) ↦ cc (rw l at h)
    ]

commit_answer-ok : (r : Result Str Bool) → commit_answer r ≡ ok tt → r ≡ ok true
unfolding commit_answer
commit_answer-ok (ok true) h = refl
commit_answer-ok (ok false) h = cc
commit_answer-ok (err e) h = cc

branch_answer-ok : (r : Result Str Bool) → branch_answer r ≡ ok tt → r ≡ ok false
unfolding branch_answer
branch_answer-ok (ok true) h = cc
branch_answer-ok (ok false) h = refl
branch_answer-ok (err e) h = cc

both_ok :
    {A : Type 0} (m : Result UnarchiveError (Unit {0})) (n : Result UnarchiveError A) (a : A)
    → (m >>= λ _. n) ≡ ok a
    → (m ≡ ok tt) × (n ≡ ok a)
both_ok (ok u) n a h = (refl, h)
both_ok (err e) n a h = cc

module _ {G : Type 0} (queries : Queries G) (around : Surroundings G) (execute : Executor G)
    (codec : Codec State) (faithful : IsFaithful codec) (faults : Faults) where
  cleared_with-ok :
      (path p : Str) (w : World G) (r : Result StoreError (Unit {0})) (disk : Disk)
      → (cleared_with queries around execute codec faults path w (r, disk)).0 ≡ ok p
      → (r ≡ ok tt)
        × (path ≡ p)
        × ((cleared_with queries around execute codec faults path w (r, disk)).1.git ≡ w.git)
        × ((cleared_with queries around execute codec faults path w (r, disk)).1.disk ≡ disk)
  unfolding cleared_with
  cleared_with-ok path p w (ok u) disk h = (refl, ok-injective h, refl, refl)
  cleared_with-ok path p w (err e) disk h = cc

  added_with-ok :
      (key path p : Str) (w : World G) (r : Result UnarchiveError (Unit {0}))
      → (added_with queries around execute codec faults key path w r).0 ≡ ok p
      → (path ≡ p)
        × (r ≡ ok tt)
        × ((added_with queries around execute codec faults key path w r).1.git
            ≡ around.hooks path w.git)
        × IsEdit codec faithful key cleared w.disk
            (added_with queries around execute codec faults key path w r).1.disk
  unfolding added_with
  added_with-ok key path p w (err e) h = cc
  added_with-ok key path p w (ok u) h =
      let w' = record w { git = around.hooks path w.git } in
      let (r, disk) = clear_archived codec key faults w.disk in
      let (done, same, git, left) = cleared_with-ok path p w' r disk h in
      (same, refl, git, rw left (clear_archived-IsEdit codec faithful key faults w.disk done))

  -- `git worktree add -b <branch> <path> <commit>`
  abbrev pub add : Str → Str → Str → Command
  add branch path sha =
      git_worktree_add path sha
        (record { force = false; detach = false; branch = branch; track = [] })

  create_with-ok :
      (key branch path sha p : Str) (w : World G) (made : Bool) (g : G)
      → (create_with queries around execute codec faults key branch path sha w (made, g)).0 ≡ ok p
      → (path ≡ p)
        × (made ≡ true)
        × (add_answer (execute (add branch path sha ∷ []) g).0 ≡ ok tt)
        × ((create_with queries around execute codec faults key branch path sha w (made, g)).1.git
            ≡ around.hooks path (execute (add branch path sha ∷ []) g).1)
        × IsEdit codec faithful key cleared w.disk
            (create_with queries around execute codec faults key branch path sha w (made, g)).1.disk
  unfolding create_with
  create_with-ok key branch path sha p w false g h = cc
  create_with-ok key branch path sha p w true g h =
      let (same, fine, git, edit) = added_with-ok key path p _ _ h in (same, refl, fine, git, edit)

  module _ (branch : Str) (repo_id : RepoIdentifier) (w : World G) where
    abbrev silent_run : Result UnarchiveError Str × World G
    silent_run = unarchive_unreported queries around execute codec faults branch repo_id w

    -- What a restored worktree rests on, and how it was restored: its directory's parent was made, git
    -- was asked to add it and did so, and then the hooks ran. That leaves the repository as `after`.
    pub record IsRestored (path : Str) (entry : WorktreeState) (after : G) : Type 0 where
      pub restorable : IsRestorable codec (state_key repo_id branch) faults w.disk entry
      pub commit_there : queries.commit_exists entry.commit_sha w.git ≡ ok true
      pub branch_free : queries.branch_exists branch w.git ≡ ok false
      pub place :
          path ≡ resolve_unarchive_path queries around entry.worktree_path repo_id branch w.git
      pub made : (around.make_dir (dir path) w.git).0 ≡ true
      pub asked :
          add_answer
            (execute (add branch path entry.commit_sha ∷ []) (around.make_dir (dir path) w.git).1).0
          ≡ ok tt
      pub left_with :
          after
          ≡ around.hooks path
              (execute
                (add branch path entry.commit_sha ∷ [])
                (around.make_dir (dir path) w.git).1).1

    checked_entry-ok :
        (entry : WorktreeState)
        → checked_entry queries around execute codec faults (state_key repo_id branch) branch w
          ≡ ok entry
        → IsRestorable codec (state_key repo_id branch) faults w.disk entry
          × (queries.commit_exists entry.commit_sha w.git ≡ ok true)
          × (queries.branch_exists branch w.git ≡ ok false)
    unfolding checked_entry validate_unarchive_prereqs
    checked_entry-ok entry h =
        let key = state_key repo_id branch in
        elim (Result-cases (load_archived_entry codec key faults w.disk)) [
          | inl (e, l) ↦
              let (valid, same) = both_ok _ (ok e) entry (rw l at h) in
              let (commit, free) = both_ok _ _ tt valid in
              let equal : e ≡ entry = ok-injective same in
              (
                load_archived_entry-IsRestorable codec key faults w.disk entry (l ∙ same),
                commit_answer-ok _ (
                    ap
                      (λ (v : WorktreeState).
                        commit_answer (queries.commit_exists v.commit_sha w.git))
                      (sym equal)
                    ∙ commit),
                branch_answer-ok _ free,
              )
          | inr (e, l) ↦ cc (rw l at h)
        ]

    restore_with-ok :
        (path : Str) (built : Result UnarchiveError WorktreeState)
        → checked_entry queries around execute codec faults (state_key repo_id branch) branch w
          ≡ built
        → (restore_with queries around execute codec faults
            (state_key repo_id branch)
            branch
            repo_id
            w
            built).0
          ≡ ok path
        → ((entry : WorktreeState) × IsRestored path entry
              (restore_with queries around execute codec faults
                (state_key repo_id branch)
                branch
                repo_id
                w
                built).1.git)
          × IsEdit codec faithful
              (state_key repo_id branch)
              cleared
              w.disk
              (restore_with queries around execute codec faults
                (state_key repo_id branch)
                branch
                repo_id
                w
                built).1.disk
    unfolding restore_with
    restore_with-ok path (err e) b h = cc
    restore_with-ok path (ok entry) b h =
        let (r, c, f) = checked_entry-ok entry b in
        let place =
          resolve_unarchive_path queries around entry.worktree_path repo_id branch w.git in
        let (made, g) = around.make_dir (dir place) w.git in
        let (same, there, fine, git, edit) =
          create_with-ok (state_key repo_id branch) branch place entry.commit_sha path w made g h in
        (
          (
            entry,
            rw (← same) (record {
              restorable = r;
              commit_there = c;
              branch_free = f;
              place = refl;
              made = there;
              asked = fine;
              left_with = git;
            }),
          ),
          edit,
        )

    silent-IsRestored :
        (path : Str)
        → silent_run.0 ≡ ok path
        → ((entry : WorktreeState) × IsRestored path entry silent_run.1.git)
          × IsEdit codec faithful (state_key repo_id branch) cleared w.disk silent_run.1.disk
    unfolding unarchive_unreported
    silent-IsRestored path h = restore_with-ok path _ refl h

    module _ (can_print : Bool) where
      abbrev run : Result UnarchiveError Str × World G
      run = unarchive_command_core queries around execute codec faults can_print branch repo_id w

      told_path-ok :
          (r : Result UnarchiveError Str) (v : World G) (path : Str)
          → (told_path queries around execute codec faults can_print (r, v)).0 ≡ ok path
          → (r ≡ ok path) × ((told_path queries around execute codec faults can_print (r, v)).1 ≡ v)
      unfolding told_path
      told_path-ok (err e) v path h = cc
      told_path-ok (ok p) v path h = elim (Bool-cases can_print) [
        | inl yes_print ↦ (rw yes_print at h, refl)
        | inr no_print ↦ cc (rw no_print at h)
      ]

      -- A worktree is restored only from an archived entry with a commit that git still has, under a
      -- branch name that is free, at the recorded path if that can be used, else in central storage.
      -- The parent directory is made, git is asked to add a worktree with the branch at that path and
      -- commit, and does so, and the hooks run in it: that is what has happened to the repository. The
      -- entry is then cleared, which keeps a sync from archiving it again, and no other entry changes.
      pub unarchive-IsRestored :
          (path : Str)
          → run.0 ≡ ok path
          → ((entry : WorktreeState) × IsRestored path entry run.1.git)
            × IsEdit codec faithful (state_key repo_id branch) cleared w.disk run.1.disk
      unfolding unarchive_command_core
      unarchive-IsRestored path h =
          let (done, same) = told_path-ok silent_run.0 silent_run.1 path h in
          rw same (silent-IsRestored path done)
