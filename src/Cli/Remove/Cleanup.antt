-- ===== src/Cli/Remove/Cleanup.antt =====
-- The clean-ups of cli/remove.go after a worktree is gone: state, cache and central storage.
pub mod Erasure
pub mod Storage
use wtp.Base.{ℕ, zero, suc, Bool, true, false, ◌||◌, Option, none, some, []}
use wtp.Base.{◌++◌, if◌then◌else◌}
use wtp.Base.Lists.{length}
use wtp.Base.Result.{ok, err}
use wtp.Base.Text.{Str, str, ◌==◌, has_prefix}
use wtp.Base.Dict.{erase}
use wtp.FilePath.{abs, dir}
use wtp.Remote.{parse, state_key}
use wtp.State.{State, modify}
use wtp.Cache
use wtp.Cache.{Cache}
use wtp.Cli.Remove.{RemoveWorld, Around}

module _ {G : Type 0} (around : Around G) where
  -- The upward walk of `cleanupCentralizedWorktreeDir`, which ends at the root or at the first
  -- directory that is not removed.
  climb_on : (G → G) → Bool × G → G
  climb_on next (true, g) = next g
  climb_on next (false, g) = g

  unfoldable pub remove_dirs : ℕ → Str → Str → G → G
  unfolding climb_on
  remove_dirs zero abs_root path g = g
  remove_dirs (suc fuel) abs_root path g =
      let next = λ (g' : G). remove_dirs fuel abs_root (dir path) g' in
      if path == abs_root || path == dir path then g else climb_on next (around.remove_dir path g)

  below_root : Option Str → Option Str → G → G
  unfolding remove_dirs
  below_root none abs_root g = g
  below_root (some abs_path) none g = g
  below_root (some abs_path) (some abs_root) g =
      if has_prefix (abs_root ++ str "/") abs_path
      then remove_dirs (length abs_path) abs_root abs_path g
      else g

  unfoldable pub cleanup_centralized_worktree_dir : Str → G → G
  unfolding below_root
  cleanup_centralized_worktree_dir worktree_path g =
      if around.storage_root == []
      then g
      else below_root (abs around.pwd worktree_path) (abs around.pwd around.storage_root) g

  -- The key of the branch's entries, if the remote repository can be told.
  key_of : Str → Option Str → Option Str
  key_of branch none = none
  key_of branch (some url) = elim (parse around.url_parse url) [
    | err e ↦ none
    | ok repo_id ↦ some (state_key repo_id branch)
  ]

  unfoldable pub branch_key : Str → G → Option Str
  unfolding key_of
  branch_key branch g = if branch == [] then none else key_of branch (around.remote_url g)

  abbrev erase_entry : Str → State → State
  erase_entry key st = record { worktrees = erase key st.worktrees }

  erased : Option Str → RemoveWorld G → RemoveWorld G
  erased none w = w
  erased (some key) w = record w {
    state = (modify around.state_codec (erase_entry key) around.state_faults w.state).1;
    cache = (Cache.delete around.cache_codec key around.cache_faults w.cache).1;
  }

  unfoldable pub cleanup_worktree_state_and_cache : Str → RemoveWorld G → RemoveWorld G
  unfolding branch_key erased
  cleanup_worktree_state_and_cache branch w = erased (branch_key branch w.git) w
