-- ===== src/Maintenance/Checks/Eligible.antt =====
-- Which worktrees a sync looks at.
use wtp.Base.{
  ◌≡◌, ◌≢◌, refl, ◌∙◌, sym, Bool, true, ◌&&◌, ◌||◌, not, List, [], ◌∷◌, arith, Bool-cases, inl, inr,
  if◌then◌else◌,
}
use wtp.Base.Result.{ok-injective}
use wtp.Base.Text.{Str}
use wtp.Base.Text.Laws.{eq_refl}
use wtp.Base.Lists.{All}
use wtp.Git.{Worktree}
use wtp.Remote.{RepoIdentifier, state_key}
use wtp.Store.{Codec, IsFaithful, Disk}
use wtp.State.{State, entry_at, cleared}
use wtp.Maintenance.Checks.{BranchCheck, collect_checks, passed_by, unchecked}
use wtp.State.Entries.{HoldsState, IsEdit}

-- A worktree that a sync may archive: not the main one, on a branch, and neither archived nor
-- kept from being archived.
abbrev pub is_eligible : RepoIdentifier → State → Worktree → Bool
is_eligible repo_id st wt =
    not (passed_by wt)
    && not (
        (entry_at st (state_key repo_id wt.branch)).archived
        || (entry_at st (state_key repo_id wt.branch)).suppress_auto_archive)

-- The worktrees among which the checks are made, in order.
abbrev pub eligible : RepoIdentifier → State → List Worktree → List Worktree
eligible repo_id st [] = []
eligible repo_id st (wt ∷ wts) =
    if is_eligible repo_id st wt then wt ∷ eligible repo_id st wts else eligible repo_id st wts

abbrev pub checks_of : RepoIdentifier → List Worktree → List BranchCheck
checks_of repo_id [] = []
checks_of repo_id (wt ∷ wts) = unchecked wt (state_key repo_id wt.branch) ∷ checks_of repo_id wts

-- A sync checks the worktrees that it may archive, all of them, in the order of the listing, and
-- under the keys of their branches.
pub collect_checks-eligible :
    (repo_id : RepoIdentifier) (worktrees : List Worktree) (st : State)
    → collect_checks repo_id worktrees st ≡ checks_of repo_id (eligible repo_id st worktrees)
unfolding collect_checks
collect_checks-eligible repo_id [] st = refl
collect_checks-eligible repo_id (wt ∷ wts) st =
    let rest = collect_checks-eligible repo_id wts st in
    let entry = entry_at st (state_key repo_id wt.branch) in
    elim (Bool-cases (passed_by wt)) [
      | inl p ↦ rw p rest
      | inr p ↦ elim (Bool-cases (entry.archived || entry.suppress_auto_archive)) [
        | inl e ↦ rw (p, e) rest
        | inr e ↦ rw (p, e, rest) refl
      ]
    ]

collect_checks-suppressed :
    (repo_id : RepoIdentifier) (key : Str) (st : State)
    → (entry_at st key).suppress_auto_archive ≡ true
    → (worktrees : List Worktree) → All (λ c. c.key ≢ key) (collect_checks repo_id worktrees st)
unfolding collect_checks
collect_checks-suppressed repo_id key st s [] = tt
collect_checks-suppressed repo_id key st s (wt ∷ wts) =
    let rest = collect_checks-suppressed repo_id key st s wts in
    let entry = entry_at st (state_key repo_id wt.branch) in
    elim (Bool-cases (passed_by wt)) [
      | inl p ↦ rw p rest
      | inr p ↦ elim (Bool-cases (entry.archived || entry.suppress_auto_archive)) [
        | inl e ↦ rw (p, e) rest
        | inr e ↦ rw (p, e) ((λ same. ground (arith, rw same at e, s)), rest)
      ]
    ]

-- A worktree whose archive was cleared, as an unarchive does, is not checked by a later sync that
-- loads what is then in the state file: whatever its PR says, it is not archived again.
pub collect_checks-cleared :
    (codec : Codec State) (faithful : IsFaithful codec) (key : Str) (before after : Disk)
    → IsEdit codec faithful key cleared before after
    → (st : State) → HoldsState codec faithful after st
    → (repo_id : RepoIdentifier) (worktrees : List Worktree)
    → All (λ c. c.key ≢ key) (collect_checks repo_id worktrees st)
collect_checks-cleared codec faithful key before after edit st now repo_id worktrees =
    let same : edit.new ≡ st = ok-injective (sym edit.now ∙ now) in
    collect_checks-suppressed repo_id key st (rw (sym same, edit.entries key, eq_refl key) refl)
      worktrees
