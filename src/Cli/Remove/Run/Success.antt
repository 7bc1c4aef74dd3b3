-- ===== src/Cli/Remove/Run/Success.antt =====
-- How `wtp remove` ends once its worktree is chosen.
use wtp.Base.{◌≡◌, refl, ap, ◌∙◌, true, false, Option, none, some, [], ◌∷◌, ◌++◌}
use wtp.Base.Result.{ok, err}
use wtp.Base.Text.{Str, ◌==◌}
use wtp.Git.{Worktree}
use wtp.Cli.Remove.{RemoveWorld, Around, Flags, worktree_removal_failed, failure_of}
use wtp.Cli.Remove.{removed_worktree, removed_branch}
use wtp.Cli.Remove.Run.{tidied, remove_target, remove_listed, worktree_removed}
use wtp.Cli.Remove.Run.{branch_step, remove_branch, branch_deleted}
use wtp.Cli.Remove.Run.{remove_command_with_command_executor}
use wtp.Cli.Remove.Cleanup.Erasure.{cleanup-printed}
use wtp.Cli.Remove.Run.Guard.{listed_world, run, IsAimed}
use wtp.Cli.Remove.Run.Guard.{removal, removed_world}
use wtp.Cli.Remove.Run.Course.{deletion}

module _ {G : Type 0} (around : Around G) (cwd name : Str) (flags : Flags) (w : RemoveWorld G)
    (wt : Worktree) (aim : IsAimed around cwd name flags w wt) where
  run-aimed :
      run around cwd name flags w
      ≡ remove_target around name flags (ok wt) (listed_world around cwd name flags w)
  unfolding remove_command_with_command_executor remove_listed
  run-aimed = rw (aim.answered, aim.chosen)

  -- If git does not remove the worktree that was chosen, that is the error, and nothing else has
  -- happened: the state, the cache, the branch and the output are as they were.
  remove-refused :
      (text : Str)
      → failure_of (removal around cwd name flags w wt).0 ≡ some text
      → run around cwd name flags w
        ≡ (err (worktree_removal_failed text), removed_world around cwd name flags w wt)
  unfolding remove_target worktree_removed
  remove-refused text f = run-aimed ∙ rw f

  -- The world in which the branch is deleted.
  abbrev told_world : RemoveWorld G
  told_world = record (tidied around wt (removed_world around cwd name flags w wt)) {
    printed =
        (tidied around wt (removed_world around cwd name flags w wt)).printed
        ++ removed_worktree name wt.path ∷ [];
  }

  worktree_removed-told :
      around.can_print ≡ true
      → worktree_removed around name flags wt none (removed_world around cwd name flags w wt)
        ≡ branch_step around flags wt told_world
  unfolding worktree_removed
  worktree_removed-told prints = rw prints

  branch_step-told :
      flags.keep_branch ≡ false
      → (wt.branch == []) ≡ false
      → branch_step around flags wt told_world
        ≡ remove_branch around wt.branch flags.force_branch told_world
  unfolding branch_step
  branch_step-told keep named = rw (keep, named)

  branch_deleted-told :
      (v : RemoveWorld G)
      → around.can_print ≡ true
      → branch_deleted around wt.branch none v
        ≡ (ok tt, record v { printed = v.printed ++ removed_branch wt.branch ∷ [] })
  unfolding branch_deleted
  branch_deleted-told v prints = rw prints

  -- If git removes the worktree that was chosen and then deletes its branch, and the output can be
  -- written, then the removal succeeds and says both.
  pub remove-succeeds :
      around.can_print ≡ true
      → flags.keep_branch ≡ false
      → (wt.branch == []) ≡ false
      → failure_of (removal around cwd name flags w wt).0 ≡ none
      → failure_of (deletion around cwd name flags w wt).0 ≡ none
      → ((run around cwd name flags w).0 ≡ ok tt)
        × ((run around cwd name flags w).1.git ≡ (deletion around cwd name flags w wt).1)
        × ((run around cwd name flags w).1.printed
            ≡ (w.printed ++ removed_worktree name wt.path ∷ []) ++ removed_branch wt.branch ∷ [])
  unfolding remove_target remove_branch
  remove-succeeds prints keep named gone deleted =
      let v : RemoveWorld G = record told_world { git = (deletion around cwd name flags w wt).1 } in
      let same : run around cwd name flags w
          ≡ (ok tt, record v { printed = v.printed ++ removed_branch wt.branch ∷ [] }) =
        run-aimed
        ∙ ap
            (λ (f : Option Str).
              worktree_removed around name flags wt f (removed_world around cwd name flags w wt))
            gone
        ∙ worktree_removed-told prints
        ∙ branch_step-told keep named
        ∙ ap (λ (f : Option Str). branch_deleted around wt.branch f v) deleted
        ∙ branch_deleted-told v prints in
      let told = cleanup-printed around wt.branch (removed_world around cwd name flags w wt) in
      rw same (refl, refl, rw told refl)
