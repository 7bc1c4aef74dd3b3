-- ===== src/Cli/Archive/Effects.antt =====
-- What `wtp archive` changes, and what it leaves alone.
use mathlib.Core.Path.{subst}
use wtp.Base.{ℕ, ◌≡◌, ◌⊎◌, refl, sym, ap, ◌∙◌, Bool, false, Option, List, inl, inr, Bool-cases}
use wtp.Base.Result.{Result, ok, err}
use wtp.Base.Text.{Str}
use wtp.Git.{Worktree}
use wtp.Remote.{RepoIdentifier, state_key}
use wtp.Command.{Executor}
use wtp.Store.{Codec, IsFaithful, Faults, StoreError}
use wtp.State.{WorktreeState, State, is_archived}
use wtp.State.Entries.{IsEdit}
use wtp.State.Archiving.{World, perform_archive}
use wtp.State.Archiving.Order.{perform_archive-err, perform_archive-IsEdit}
use wtp.Cli.Resolver.{is_main_name}
use wtp.Cli.Archive.{Queries, ArchiveError}
use wtp.Cli.Archive.{build_archive_state, performed, archive_with, archive_command_core}
use wtp.Cli.Archive.{archive_unreported, told, not_printed}
use wtp.Cli.Archive.Safety.{IsArchivable, fresh-IsArchivable}

module _ {G : Type 0} (queries : Queries G) (codec : Codec State) (pwd : Option Str) (now : ℕ)
    (branch cwd : Str) (force : Bool) (worktrees : List Worktree) (execute : Executor G)
    (faithful : IsFaithful codec) (faults : Faults) (repo_id : RepoIdentifier) (w : World G)
    (can_print : Bool) where
  abbrev archived_run : Result ArchiveError Bool × World G
  archived_run =
      archive_command_core queries codec execute can_print faults pwd now branch cwd force worktrees
        repo_id w

  -- The run up to its message.
  abbrev silent_run : Result ArchiveError Bool × World G
  silent_run =
      archive_unreported queries codec execute faults pwd now branch cwd force worktrees repo_id w

  told-ok :
      (r : Result ArchiveError Bool) (v : World G) (clean : Bool)
      → (told queries codec execute can_print (r, v)).0 ≡ ok clean
      → (r ≡ ok clean) × ((told queries codec execute can_print (r, v)).1 ≡ v)
  unfolding told
  told-ok (err e) v clean h = cc
  told-ok (ok c) v clean h = elim (Bool-cases can_print) [
    | inl p ↦ (rw p at h, refl)
    | inr p ↦ cc (rw p at h)
  ]

  told-err :
      (r : Result ArchiveError Bool) (v : World G) (e : ArchiveError)
      → (told queries codec execute can_print (r, v)).0 ≡ err e
      → ((r ≡ err e) ⊎ ((e ≡ not_printed) × (can_print ≡ false)))
        × ((told queries codec execute can_print (r, v)).1 ≡ v)
  unfolding told
  told-err (err f) v e h = (inl h, refl)
  told-err (ok c) v e h = elim (Bool-cases can_print) [
    | inl p ↦ cc (rw p at h)
    | inr p ↦ let same = rw p at h in (inr (cc, p), refl)
  ]

  performed-ok :
      (r : Result StoreError Bool) (v : World G) (clean : Bool)
      → (performed queries codec execute (r, v)).0 ≡ ok clean
      → (r ≡ ok clean) × ((performed queries codec execute (r, v)).1 ≡ v)
  unfolding performed
  performed-ok (ok c) v clean h = (cc, refl)
  performed-ok (err e) v clean h = cc

  performed-err :
      (r : Result StoreError Bool) (v : World G) (e : ArchiveError)
      → (performed queries codec execute (r, v)).0 ≡ err e
      → (f : StoreError) × (r ≡ err f) × ((performed queries codec execute (r, v)).1 ≡ v)
  unfolding performed
  performed-err (ok c) v e h = cc
  performed-err (err f) v e h = (f, refl, refl)

  archive_with-ok :
      (key : Str) (built : Result ArchiveError WorktreeState) (clean : Bool)
      → (archive_with queries codec execute faults key w built).0 ≡ ok clean
      → (ws : WorktreeState) × (built ≡ ok ws)
        × IsEdit codec faithful key
            (λ _. record ws { suppress_auto_archive = false })
            w.disk
            (archive_with queries codec execute faults key w built).1.disk
  unfolding archive_with
  archive_with-ok key (err e) clean h = cc
  archive_with-ok key (ok ws) clean h =
      let ws' = record ws { suppress_auto_archive = false } in
      let (r, v) = perform_archive execute codec faults key ws' w in
      let (done, same) = performed-ok r v clean h in
      (
        ws,
        refl,
        rw same ((perform_archive-IsEdit execute codec faithful ws' w faults key clean done).0),
      )

  build_archive_state-IsArchivable :
      (key : Str) (ws : WorktreeState)
      → is_archived codec key faults w.disk ≡ false
      → build_archive_state queries codec faults pwd now key branch cwd force worktrees w ≡ ok ws
      → IsArchivable queries codec pwd now branch cwd force worktrees w.git ws
  unfolding build_archive_state
  build_archive_state-IsArchivable key ws new h =
      fresh-IsArchivable queries codec pwd now branch cwd force worktrees w.git ws (rw new at h)

  silent-IsArchivable :
      (clean : Bool)
      → is_archived codec (state_key repo_id branch) faults w.disk ≡ false
      → silent_run.0 ≡ ok clean
      → (is_main_name branch ≡ false)
        × ((ws : WorktreeState) × IsArchivable queries codec pwd now branch cwd force worktrees
              w.git ws
            × IsEdit codec faithful (state_key repo_id branch) (λ _. ws) w.disk silent_run.1.disk)
  unfolding archive_unreported
  silent-IsArchivable clean new h = elim (Bool-cases (is_main_name branch)) [
    | inl m ↦ cc (rw m at h)
    | inr m ↦
        let key = state_key repo_id branch in
        let built =
          build_archive_state queries codec faults pwd now key branch cwd force worktrees w in
        let same : silent_run ≡ archive_with queries codec execute faults key w built = rw m in
        let (ws, b, edit) = archive_with-ok key built clean (rw same at h) in
        let found = build_archive_state-IsArchivable key ws new b in
        let unchanged : record ws { suppress_auto_archive = false } ≡ ws =
          ap (λ (v : WorktreeState). record v { suppress_auto_archive = false }) found.recorded
          ∙ sym found.recorded in
        (
          m,
          (
            ws,
            found,
            subst
                (λ (v : WorktreeState). IsEdit codec faithful key (λ _. v) w.disk silent_run.1.disk)
                unchanged (rw same edit),
          ),
        )
  ]

  -- An archive of a worktree that is not archived yet, if it is reported at all: the name is not a
  -- name of the main worktree, it addresses a linked worktree that does not hold the working
  -- directory and, without `--force`, has nothing uncommitted and is not known to have unpushed
  -- commits; and the state file has for the branch's key the path, branch and commit of that
  -- worktree, and has changed in nothing else.
  pub archive-IsArchivable :
      (clean : Bool)
      → is_archived codec (state_key repo_id branch) faults w.disk ≡ false
      → archived_run.0 ≡ ok clean
      → (is_main_name branch ≡ false)
        × ((ws : WorktreeState) × IsArchivable queries codec pwd now branch cwd force worktrees
              w.git ws
            × IsEdit codec faithful (state_key repo_id branch) (λ _. ws) w.disk archived_run.1.disk)
  unfolding archive_command_core
  archive-IsArchivable clean new h =
      let (done, same) = told-ok silent_run.0 silent_run.1 clean h in
      rw same (silent-IsArchivable clean new done)

  archive_with-err :
      (key : Str) (built : Result ArchiveError WorktreeState) (e : ArchiveError)
      → (archive_with queries codec execute faults key w built).0 ≡ err e
      → ((archive_with queries codec execute faults key w built).1.git ≡ w.git)
        × ((archive_with queries codec execute faults key w built).1.disk.file ≡ w.disk.file)
  unfolding archive_with
  archive_with-err key (err f) e h = (refl, refl)
  archive_with-err key (ok ws) e h =
      let ws' = record ws { suppress_auto_archive = false } in
      let (r, v) = perform_archive execute codec faults key ws' w in
      let (f, failed, same) = performed-err r v e h in
      let (repo, _, file) = perform_archive-err execute codec faithful ws' w faults key f failed in
      (ap (λ (u : World G). u.git) same ∙ repo, ap (λ (u : World G). u.disk.file) same ∙ file)

  silent-err :
      (e : ArchiveError)
      → silent_run.0 ≡ err e
      → (silent_run.1.git ≡ w.git) × (silent_run.1.disk.file ≡ w.disk.file)
  unfolding archive_unreported
  silent-err e h = elim (Bool-cases (is_main_name branch)) [
    | inl m ↦ rw m (refl, refl)
    | inr m ↦
        let key = state_key repo_id branch in
        let built =
          build_archive_state queries codec faults pwd now key branch cwd force worktrees w in
        let same : silent_run ≡ archive_with queries codec execute faults key w built = rw m in
        rw same (archive_with-err key built e (rw same at h))
  ]

  -- An archive that fails has left the repository and the state file as they were, unless all that
  -- failed is the printing of its message, which cannot be printed then.
  pub archive_command_core-err :
      (e : ArchiveError)
      → archived_run.0 ≡ err e
      → ((archived_run.1.git ≡ w.git) × (archived_run.1.disk.file ≡ w.disk.file))
        ⊎ ((e ≡ not_printed) × (can_print ≡ false))
  unfolding archive_command_core
  archive_command_core-err e h =
      let (how, same) = told-err silent_run.0 silent_run.1 e h in
      elim how [ inl failed ↦ inl (rw same (silent-err e failed)) | inr unprinted ↦ inr unprinted ]
