-- ===== src/Cli/Remove/Run/Course.antt =====
-- What `wtp remove` does once it has its worktree: the worktree, the entries, the branch.
use wtp.Base.{◌≡◌, ◌⊎◌, refl, ap, ◌∙◌, sym, Bool, true, not, ◌&&◌, Option, none, some, List, []}
use wtp.Base.{◌∷◌, ◌++◌, inl, inr, Bool-cases}
use wtp.Base.Result.{Result, ok}
use wtp.Base.Text.{Str, ◌==◌}
use wtp.Git.{Worktree}
use wtp.Command.{CommandResult, git_branch_delete}
use wtp.Cli.Remove.{RemoveWorld, Around, Flags, failure_of}
use wtp.Cli.Remove.{removed_worktree}
use wtp.Cli.Remove.Run.{Removed, tidied, remove_target, worktree_removed}
use wtp.Cli.Remove.Run.{branch_step, remove_branch, branch_deleted}
use wtp.Cli.Remove.Run.Guard.{run, removal, removed_world, IsAimed, run-Course}

module _ {G : Type 0} (around : Around G) (cwd name : Str) (flags : Flags) (w : RemoveWorld G) where
  -- The answer to the deletion of the branch, after the clean-ups.
  abbrev pub deletion : Worktree → Result Str (List CommandResult) × G
  deletion wt =
      around.execute (git_branch_delete wt.branch flags.force_branch ∷ [])
        (tidied around wt (removed_world around cwd name flags w wt)).git

  -- Whether the branch stays by intent.
  abbrev pub keeps : Worktree → Bool
  keeps wt = not (not flags.keep_branch && not (wt.branch == []))

  -- What a worktree that is gone means for the stores and the branch.
  pub record IsGone (wt : Worktree) (r : Removed around) : Type 0 where
    pub went : failure_of (removal around cwd name flags w wt).0 ≡ none
    pub state : r.1.state ≡ (tidied around wt (removed_world around cwd name flags w wt)).state
    pub cache : r.1.cache ≡ (tidied around wt (removed_world around cwd name flags w wt)).cache
    pub branch : (keeps wt ≡ true) ⊎ (failure_of (deletion wt).0 ≡ none)

  branch_deleted-ok :
      (b : Str) (f : Option Str) (v : RemoveWorld G)
      → (branch_deleted around b f v).0 ≡ ok tt
      → (f ≡ none)
        × ((branch_deleted around b f v).1.state ≡ v.state)
        × ((branch_deleted around b f v).1.cache ≡ v.cache)
  unfolding branch_deleted
  branch_deleted-ok b (some e) v h = cc
  branch_deleted-ok b none v h = elim (Bool-cases around.can_print) [
    | inl p ↦ (refl, rw p refl, rw p refl)
    | inr p ↦ cc (rw p at h)
  ]

  branch_step-ok :
      (wt : Worktree) (v : RemoveWorld G)
      → v.git ≡ (tidied around wt (removed_world around cwd name flags w wt)).git
      → (branch_step around flags wt v).0 ≡ ok tt
      → ((keeps wt ≡ true) ⊎ (failure_of (deletion wt).0 ≡ none))
        × ((branch_step around flags wt v).1.state ≡ v.state)
        × ((branch_step around flags wt v).1.cache ≡ v.cache)
  unfolding branch_step remove_branch
  branch_step-ok wt v g h = elim (Bool-cases (not flags.keep_branch && not (wt.branch == []))) [
    | inl b ↦
        let delete =
          λ (repo : G). around.execute (git_branch_delete wt.branch flags.force_branch ∷ []) repo in
        let (fine, state, cache) =
          branch_deleted-ok wt.branch (failure_of (delete v.git).0)
            (record v { git = (delete v.git).1 }) (rw b at h) in
        (inr (ap (λ (repo : G). failure_of (delete repo).0) (sym g) ∙ fine), rw b state, rw b cache)
    | inr b ↦ (inl (rw b refl), rw b refl, rw b refl)
  ]

  worktree_removed-ok :
      (wt : Worktree) (f : Option Str)
      → failure_of (removal around cwd name flags w wt).0 ≡ f
      → (worktree_removed around name flags wt f (removed_world around cwd name flags w wt)).0
        ≡ ok tt
      → IsGone wt
          (worktree_removed around name flags wt f (removed_world around cwd name flags w wt))
  unfolding worktree_removed
  worktree_removed-ok wt (some e) g h = cc
  worktree_removed-ok wt none g h = elim (Bool-cases around.can_print) [
    | inl p ↦
        let v : RemoveWorld G =
          record (tidied around wt (removed_world around cwd name flags w wt)) {
            printed =
                (tidied around wt (removed_world around cwd name flags w wt)).printed
                ++ removed_worktree name wt.path ∷ [];
          } in
        let same : worktree_removed around name flags wt none
              (removed_world around cwd name flags w wt)
            ≡ branch_step around flags wt v =
          rw p in
        let (branch, state, cache) = branch_step-ok wt v refl (rw same at h) in
        rw same (record { went = g; state = state; cache = cache; branch = branch })
    | inr p ↦ cc (rw p at h)
  ]

  -- A removal that succeeds has removed the first linked worktree with the given branch, from
  -- outside it. The state and the cache are as the clean-up leaves them for that worktree's branch;
  -- and that branch is deleted, unless it is to be kept or the worktree has none.
  pub remove-IsGone :
      (run around cwd name flags w).0 ≡ ok tt
      → (wt : Worktree) × IsAimed around cwd name flags w wt
        × IsGone wt (run around cwd name flags w)
  unfolding remove_target
  remove-IsGone h = elim (run-Course around cwd name flags w) [
    | inl (e, r) ↦ cc (rw r at h)
    | inr (wt, aim, r) ↦ (
      wt,
      aim,
      rw r (
          worktree_removed-ok wt (failure_of (removal around cwd name flags w wt).0) refl
            (rw r at h)),
    )
  ]
