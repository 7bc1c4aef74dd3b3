-- ===== src/Cli/Remove/Run.antt =====
-- `removeCommand` of cli/remove.go.
pub mod Guard
pub mod Course
pub mod Success
use wtp.Base.{Bool, not, ◌&&◌, Option, none, some, List, [], ◌∷◌}
use wtp.Base.{◌++◌, if◌then◌else◌}
use wtp.Base.Result.{Result, ok, err, ◌>>=◌}
use wtp.Base.Text.{Str, ◌==◌}
use wtp.FilePath.{abs, is_path_within}
use wtp.Git.{Worktree, parse_worktree_list_output}
use wtp.Command.{CommandResult, git_worktree_list, git_worktree_remove, git_branch_delete}
use wtp.Cli.Resolver.{NotFound}
use wtp.Cli.Remove.{
  removed_worktree, removed_branch, RemoveWorld, Around, Flags, RemoveError, no_directory,
  no_repository, no_listing, list_failed, target_not_found, target_unresolved, directory_unresolved,
  current_worktree, print_failed, worktree_removal_failed, branch_removal_failed,
  validate_remove_input, find_target_worktree_from_list, failure_of,
}
use wtp.Cli.Remove.Cleanup.{cleanup_worktree_state_and_cache, cleanup_centralized_worktree_dir}

module _ {G : Type 0} (around : Around G) where
  abbrev pub Removed : Type 0
  Removed = Result RemoveError (Unit {0}) × RemoveWorld G

  branch_deleted : Str → Option Str → RemoveWorld G → Removed
  branch_deleted branch (some e) w = (err (branch_removal_failed e), w)
  branch_deleted branch none w =
      if around.can_print
      then (ok tt, record w { printed = w.printed ++ removed_branch branch ∷ [] })
      else (err print_failed, w)

  -- `removeBranchWithCommandExecutor`
  unfoldable pub remove_branch : Str → Bool → RemoveWorld G → Removed
  unfolding branch_deleted failure_of
  remove_branch branch force_branch w =
      let (result, g) = around.execute (git_branch_delete branch force_branch ∷ []) w.git in
      branch_deleted branch (failure_of result) (record w { git = g })

  -- "Remove branch by default unless --keep-branch is specified"
  branch_step : Flags → Worktree → RemoveWorld G → Removed
  unfolding remove_branch
  branch_step flags wt w =
      if not flags.keep_branch && not (wt.branch == [])
      then remove_branch wt.branch flags.force_branch w
      else (ok tt, w)

  -- The two clean-ups that follow the removal of a worktree.
  abbrev pub tidied : Worktree → RemoveWorld G → RemoveWorld G
  tidied wt w =
      let w' = cleanup_worktree_state_and_cache around wt.branch w in
      record w' { git = cleanup_centralized_worktree_dir around wt.path w'.git }

  pub worktree_removed : Str → Flags → Worktree → Option Str → RemoveWorld G → Removed
  unfolding branch_step
  worktree_removed name flags wt (some e) w = (err (worktree_removal_failed e), w)
  worktree_removed name flags wt none w =
      if around.can_print
      then branch_step flags wt (record (tidied wt w) {
        printed = (tidied wt w).printed ++ removed_worktree name wt.path ∷ [];
      })
      else (err print_failed, tidied wt w)

  -- The guard on the worktree that was found, with its path and the working directory made absolute.
  not_inside : Worktree → Option Str → Option Str → Result RemoveError Worktree
  not_inside wt none abs_cwd = err target_unresolved
  not_inside wt (some abs_target) none = err directory_unresolved
  not_inside wt (some abs_target) (some abs_cwd) =
      if is_path_within abs_target abs_cwd then err current_worktree else ok wt

  found : Result NotFound Worktree → Result RemoveError Worktree
  found (err e) = err (target_not_found e)
  found (ok wt) = ok wt

  unfoldable pub target : Str → Str → List Worktree → Result RemoveError Worktree
  unfolding not_inside found
  target cwd name worktrees = found (find_target_worktree_from_list name worktrees) >>= λ wt.
      not_inside wt (abs around.pwd wt.path) (abs around.pwd cwd)

  pub remove_target : Str → Flags → Result RemoveError Worktree → RemoveWorld G → Removed
  unfolding worktree_removed failure_of
  remove_target name flags (err e) w = (err e, w)
  remove_target name flags (ok wt) w =
      let (result, g) = around.execute (git_worktree_remove wt.path flags.force ∷ []) w.git in
      worktree_removed name flags wt (failure_of result) (record w { git = g })

  remove_listed : Str → Str → Flags → Result Str (List CommandResult) → RemoveWorld G → Removed
  unfolding remove_target target
  remove_listed cwd name flags (err e) w = (err (list_failed e), w)
  remove_listed cwd name flags (ok []) w = (err no_listing, w)
  remove_listed cwd name flags (ok (r ∷ rest)) w =
      remove_target name flags (target cwd name (parse_worktree_list_output r.output)) w

  unfoldable pub remove_command_with_command_executor : Str → Str → Flags → RemoveWorld G → Removed
  unfolding remove_listed
  remove_command_with_command_executor cwd name flags w =
      let (result, g) = around.execute (git_worktree_list ∷ []) w.git in
      remove_listed cwd name flags result (record w { git = g })

  in_directory : Option Str → Str → Flags → RemoveWorld G → Removed
  unfolding remove_command_with_command_executor
  in_directory none name flags w = (err no_directory, w)
  in_directory (some cwd) name flags w =
      if around.in_repository w.git
      then remove_command_with_command_executor cwd name flags w
      else (err no_repository, w)

  after_validation : Result RemoveError (Unit {0}) → Removed → RemoveWorld G → Removed
  after_validation (err e) run w = (err e, w)
  after_validation (ok _) run w = run

  -- `removeCommand`, with the working directory if it can be told.
  unfoldable pub remove_command : Option Str → Str → Flags → RemoveWorld G → Removed
  unfolding after_validation in_directory
  remove_command cwd name flags w =
      after_validation (validate_remove_input name flags.keep_branch flags.force_branch)
        (in_directory cwd name flags w) w
