-- ===== src/Cli/Remove.antt =====
-- cli/remove.go: what `wtp remove` is given and says, and how it finds its worktree.
pub mod Cleanup
pub mod Run
pub mod Target
use wtp.Base.{ℕ, zero, suc, Bool, true, false, not, ◌&&◌, ◌||◌, Option, none, some, List, [], ◌∷◌}
use wtp.Base.{◌++◌, if◌then◌else◌}
use wtp.Base.Lists.{length}
use wtp.Base.Result.{Result, ok, err, ◌>>=◌}
use wtp.Base.Text.{Str, str, ◌==◌, has_prefix}
use wtp.Base.Dict.{erase}
use wtp.FilePath.{abs, dir, is_path_within}
use wtp.Git.{Worktree, parse_worktree_list_output}
use wtp.Remote.{RepoIdentifier, ParseError, parse, state_key}
use wtp.Command.{CommandResult, Executor, git_worktree_list, git_worktree_remove, git_branch_delete}
use wtp.Store.{Codec, Disk, Faults}
use wtp.State.{State, modify}
use wtp.Cache
use wtp.Cache.{Cache}
use wtp.Cli.Resolver.{NotFound}

pub data Printed : Type 0 where
  removed_worktree : Str → Str → Printed
  removed_branch : Str → Printed

-- What the command reads and changes.
pub record RemoveWorld (G : Type 0) : Type 0 where
  pub git : G
  pub state : Disk
  pub cache : Disk
  pub printed : List Printed

-- What the command is given. `remote_url` is `newRepository` followed by `GetRemoteURL("origin")`,
-- `remove_dir` is `os.Remove`, and `can_print` says that writing the output does not fail.
pub record Around (G : Type 0) : Type 0 where
  pub execute : Executor G
  pub pwd : Option Str
  pub in_repository : G → Bool
  pub remote_url : G → Option Str
  pub url_parse : Str → Option (Str × Str)
  pub storage_root : Str
  pub remove_dir : Str → G → Bool × G
  pub state_codec : Codec State
  pub state_faults : Faults
  pub cache_codec : Codec Cache
  pub cache_faults : Faults
  pub can_print : Bool

pub record Flags : Type 0 where
  pub force : Bool
  pub keep_branch : Bool
  pub force_branch : Bool

-- `no_listing` is the access to the first of no results, at which the program stops.
pub data RemoveError : Type 0 where
  name_required flags_conflict no_directory no_repository no_listing : RemoveError
  list_failed : Str → RemoveError
  target_not_found : NotFound → RemoveError
  target_unresolved directory_unresolved current_worktree print_failed : RemoveError
  worktree_removal_failed branch_removal_failed : Str → RemoveError

unfoldable pub validate_remove_input : Str → Bool → Bool → Result RemoveError (Unit {0})
validate_remove_input worktree_name keep_branch force_branch =
    if worktree_name == []
    then err name_required
    else if force_branch && keep_branch
    then err flags_conflict
    else ok tt

-- The loop of `findTargetWorktreeFromList`, with the names that it has passed.
find_from : Str → List Str → List Worktree → Result NotFound Worktree
find_from worktree_name available [] = err (record { name = worktree_name; available = available })
find_from worktree_name available (wt ∷ wts) =
    let rest =
      find_from worktree_name (if wt.is_main then available else available ++ wt.branch ∷ []) wts in
    if wt.is_main then rest else if wt.branch == worktree_name then ok wt else rest

unfoldable pub find_target_worktree_from_list : Str → List Worktree → Result NotFound Worktree
unfolding find_from
find_target_worktree_from_list worktree_name worktrees = find_from worktree_name [] worktrees

-- Why a git command did not do its work, if so.
unfoldable pub failure_of : Result Str (List CommandResult) → Option Str
failure_of (err e) = some e
failure_of (ok []) = none
failure_of (ok (r ∷ rest)) = elim r.error [
  | none ↦ none
  | some message ↦ some (if r.output == [] then message else message ++ (str ": " ++ r.output))
]
