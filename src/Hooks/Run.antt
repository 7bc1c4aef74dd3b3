-- ===== src/Hooks/Run.antt =====
-- The running of hooks: copies, links and commands, one after the other.
pub mod Confined
pub mod Order
use wtp.Base.{ℕ, ◌+◌, Bool, true, false, Option, none, some, List, [], ◌∷◌, ◌++◌}
use wtp.Base.{if◌then◌else◌}
use wtp.Base.Lists.{length}
use wtp.Base.Result.{Result, ok, err}
use wtp.Base.Text.{Str, str, ◌==◌, has_prefix}
use wtp.Base.Dict.{Dict}
use wtp.FilePath.{is_abs, join, dir}
use wtp.Config.{Hook, hook_type_copy, hook_type_command, hook_type_symlink}
use wtp.Hooks.{
  HookError, destination_exists, not_inspected, dir_not_made, print_failed, not_copied, not_linked,
  command_failed, unknown_type, Stat, absent, unanswered, present, Line, running, copying,
  symlinking, command_line, completed, FileSystem, HookWorld, shown, checked_paths,
}

-- "filter out WTP_SHELL_INTEGRATION"
unfoldable pub filtered : List Str → List Str
filtered [] = []
filtered (kv ∷ environ) =
    let rest = filtered environ in
    if has_prefix (str "WTP_SHELL_INTEGRATION=") kv then rest else kv ∷ rest

abbrev pub assignment : Str → Str → Str
assignment key value = key ++ (str "=" ++ value)

abbrev pub assignments : Dict Str → List Str
assignments [] = []
assignments ((key, value) ∷ env) = assignment key value ∷ assignments env

-- The directory of a command hook.
unfoldable pub hook_dir : Str → Str → Str
hook_dir worktree_path work_dir =
    if work_dir == []
    then worktree_path
    else if is_abs work_dir
    then work_dir
    else join worktree_path work_dir

module _ {G : Type 0} (fs : FileSystem G) where
  abbrev pub Executed : Type 0
  Executed = Result HookError (Unit {0}) × HookWorld G

  print : Line → HookWorld G → Executed
  print line w =
      if fs.can_print
      then (ok tt, record w { printed = w.printed ++ line ∷ [] })
      else (err print_failed, w)

  -- Go's `if err := ...; err != nil { return err }` between two steps.
  pub and_then : Executed → (HookWorld G → Executed) → Executed
  and_then (err e, w) next = (err e, w)
  and_then (ok _, w) next = next w

  did : (Str → HookError) → Option Str × G → HookWorld G → Executed
  did failed (some e, g) w = (err (failed e), record w { files = g })
  did failed (none, g) w = (ok tt, record w { files = g })

  made_dirs : Bool × G → HookWorld G → Executed
  made_dirs (true, g) w = (ok tt, record w { files = g })
  made_dirs (false, g) w = (err dir_not_made, record w { files = g })

  -- The part of a copy hook behind the checks of its paths.
  pub copy_at : Str → Str → Str × Str × Bool → HookWorld G → Executed
  unfolding print and_then did made_dirs
  copy_at repo_root worktree_path (src, dst, is_dir) w =
      and_then (made_dirs (fs.make_dirs (dir dst) w.files) w) (λ w1.
        and_then (print (copying (shown repo_root src) (shown worktree_path dst)) w1) (λ w2.
          did not_copied
            (if is_dir then fs.copy_dir src dst w2.files else fs.copy_file src dst w2.files) w2))

  -- "Prevent clobbering existing paths"
  unclobbered : Str → Stat → HookWorld G → Executed
  unclobbered dst absent w = (ok tt, w)
  unclobbered dst unanswered w = (err not_inspected, w)
  unclobbered dst (present is_dir) w = (err destination_exists, w)

  pub link_at : Str → Str → Str × Str × Bool → HookWorld G → Executed
  unfolding print and_then did made_dirs unclobbered
  link_at repo_root worktree_path (src, dst, is_dir) w =
      and_then (made_dirs (fs.make_dirs (dir dst) w.files) w) (λ w1.
        and_then (unclobbered dst (fs.lstat dst w1.files) w1) (λ w2.
          and_then (print (symlinking (shown repo_root src) (shown worktree_path dst)) w2)
            (λ w3. did not_linked (fs.symlink src dst w3.files) w3)))

  at_paths :
      (Str × Str × Bool → HookWorld G → Executed)
      → Result HookError (Str × Str × Bool)
      → HookWorld G
      → Executed
  at_paths act (err e) w = (err e, w)
  at_paths act (ok paths) w = act paths w

  -- `executeCopyHookWithWriter`
  unfoldable pub execute_copy_hook : Str → Str → Hook → HookWorld G → Executed
  unfolding at_paths copy_at checked_paths
  execute_copy_hook repo_root worktree_path hook w =
      at_paths (copy_at repo_root worktree_path)
        (checked_paths fs repo_root worktree_path hook w.files) w

  -- `executeSymlinkHookWithWriter`
  unfoldable pub execute_symlink_hook : Str → Str → Hook → HookWorld G → Executed
  unfolding at_paths link_at checked_paths
  execute_symlink_hook repo_root worktree_path hook w =
      at_paths (link_at repo_root worktree_path)
        (checked_paths fs repo_root worktree_path hook w.files) w

  -- `executeCommandHookWithWriter`, where `sh -c` and the streams of its output are `run_shell`.
  unfoldable pub execute_command_hook : Str → List Str → Str → Hook → HookWorld G → Executed
  unfolding print and_then did filtered hook_dir
  execute_command_hook repo_root environ worktree_path hook w =
      and_then (print (command_line hook.command) w) (λ w1.
        did command_failed
          (fs.run_shell hook.command (hook_dir worktree_path hook.work_dir)
            (filtered environ
              ++ (assignments hook.env
                  ++ (assignment (str "GIT_WTP_WORKTREE_PATH") worktree_path
                      ∷ assignment (str "GIT_WTP_REPO_ROOT") repo_root
                      ∷ [])))
            w1.files)
          w1)

  unfoldable pub execute_hook : Str → List Str → Str → Hook → HookWorld G → Executed
  unfolding execute_copy_hook execute_symlink_hook execute_command_hook
  execute_hook repo_root environ worktree_path hook w =
      if hook.hook_type == hook_type_copy
      then execute_copy_hook repo_root worktree_path hook w
      else if hook.hook_type == hook_type_command
      then execute_command_hook repo_root environ worktree_path hook w
      else if hook.hook_type == hook_type_symlink
      then execute_symlink_hook repo_root worktree_path hook w
      else (err (unknown_type hook.hook_type), w)

  -- The loop of `ExecutePostCreateHooks`, from the hook with number `suc i` of `total`.
  unfoldable pub execute_from : Str → List Str → Str → ℕ → ℕ → List Hook → HookWorld G → Executed
  unfolding print and_then execute_hook
  execute_from repo_root environ worktree_path i total [] w = (ok tt, w)
  execute_from repo_root environ worktree_path i total (hook ∷ hooks) w =
      and_then (print (running (i + 1) total) w) (λ w1.
        and_then (execute_hook repo_root environ worktree_path hook w1) (λ w2.
          and_then (print (completed (i + 1)) w2)
            (λ w3. execute_from repo_root environ worktree_path (i + 1) total hooks w3)))

  -- `ExecutePostCreateHooks`
  unfoldable pub execute_post_create_hooks :
      Str → List Str → List Hook → Str → HookWorld G → Executed
  unfolding execute_from
  execute_post_create_hooks repo_root environ hooks worktree_path w =
      execute_from repo_root environ worktree_path 0 (length hooks) hooks w
