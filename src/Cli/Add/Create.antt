-- ===== src/Cli/Add/Create.antt =====
-- `addCommand` of cli/add.go: what `wtp add` does once its arguments are read.
pub mod Tracking
pub mod Course
use wtp.Base.{Bool, true, false, Option, none, some, List, [], ◌∷◌, ◌++◌, map}
use wtp.Base.{if◌then◌else◌}
use wtp.Base.Lists.{no_items}
use wtp.Base.Result.{Result, ok, err, ◌>>=◌}
use wtp.Base.Text.{Str, str, ◌==◌, trim_space}
use wtp.FilePath.{dir, base, abs}
use wtp.Procenv.{emit}
use wtp.Command.{Command, CommandResult, Executor}
use wtp.Config.{Hook}
use wtp.Hooks.{HookError, Line, FileSystem, HookWorld}
use wtp.Hooks.Run.{execute_post_create_hooks}
use wtp.Git.Branches.{Git}
use wtp.Git.Repository.{is_git_repository}
use wtp.Cli.Add.{
  AddInput, ExecError, not_printed, empty_result, command_failed, AddError, dir_not_made,
  print_failed, mark_failed, exec_failed, resolve_worktree_path, resolve_branch_tracking,
  build_worktree_command, analyze_git_worktree_error,
}

-- What is printed.
pub data AddLine : Type 0 where
  executing_hooks hooks_done exec_done changed_directory : AddLine
  hook_line : Line → AddLine
  hook_warning : HookError → AddLine
  executing exec_output : Str → AddLine
  created : Str → Str → AddLine
  to_switch : Str → AddLine

pub record AddWorld (G : Type 0) : Type 0 where
  pub git : G
  pub printed : List AddLine
  pub marked : List Str

-- `git_in` is the git that runs in a directory, `get_remote_url` the function that is passed in for the
-- URL of a remote. `shell` and `shell_flag` are `sh -c`, or `cmd /c` on Windows.
pub record AddAround (G : Type 0) : Type 0 where
  pub execute : Executor G
  pub git_in : G → Str → Git
  pub get_remote_url : G → Str → Option Str
  pub url_parse : Str → Option (Str × Str)
  pub data_home : Str
  pub pwd : Option Str
  pub environ : List Str
  pub ensure_dir : Str → G → Bool × G
  pub files : FileSystem G
  pub shell : Str
  pub shell_flag : Str
  pub can_mark : Bool

module _ {G : Type 0} (around : AddAround G) where
  abbrev pub Added : Type 0 → Type 0
  Added E = Result E (Unit {0}) × AddWorld G

  abbrev pub say : AddLine → AddWorld G → AddWorld G
  say line w = record w { printed = w.printed ++ line ∷ [] }

  -- `fmt.Fprint` to the output, with the error that a failure is returned as.
  abbrev pub print : {E : Type 0} → E → AddLine → AddWorld G → Added E
  print e line w = if around.files.can_print then (ok tt, say line w) else (err e, w)

  abbrev pub and_then : {E : Type 0} → Added E → (AddWorld G → Added E) → Added E
  and_then (err e, w) k = (err e, w)
  and_then (ok _, w) k = k w

  hooks_run : Result HookError (Unit {0}) × HookWorld G → AddWorld G → Added HookError
  hooks_run (result, hw) w =
      and_then
        (result, record w { git = hw.files; printed = w.printed ++ map hook_line hw.printed })
        (print HookError.print_failed hooks_done)

  -- `executePostCreateHooks`
  unfoldable pub run_post_create_hooks : List Hook → Str → Str → AddWorld G → Added HookError
  unfolding hooks_run
  run_post_create_hooks hooks repo_path path w =
      if no_items hooks
      then (ok tt, w)
      else and_then (print HookError.print_failed executing_hooks w) (λ w1.
        hooks_run
          (execute_post_create_hooks around.files repo_path around.environ hooks path
            (record { files = w1.git; printed = [] }))
          w1)

  outcome : Option Str → AddWorld G → Added ExecError
  outcome (some e) w = (err (command_failed e), w)
  outcome none w = print not_printed exec_done w

  executed : Result Str (List CommandResult) → AddWorld G → Added ExecError
  unfolding outcome
  executed (err e) w = (err (ExecError.not_executed e), w)
  executed (ok []) w = (err empty_result, w)
  executed (ok (r ∷ _)) w =
      and_then (if r.output == [] then (ok tt, w) else print not_printed (exec_output r.output) w)
        (outcome r.error)

  abbrev pub exec_command : Str → Str → Command
  exec_command exec path = record {
    name = around.shell;
    args = around.shell_flag ∷ exec ∷ [];
    work_dir = path;
    interactive = true;
  }

  -- `executePostCreateCommand`
  unfoldable pub execute_post_create_command : Str → Str → AddWorld G → Added ExecError
  unfolding executed
  execute_post_create_command exec path w =
      if trim_space exec == []
      then (ok tt, w)
      else and_then (print not_printed (executing exec) w) (λ w1.
        let (result, g) = around.execute (exec_command exec path ∷ []) w1.git in
        executed result (record w1 { git = g }))

  unfoldable pub is_main_worktree : Str → Str → Bool
  is_main_worktree path main_path = elim (abs around.pwd path) [
    | none ↦ false
    | some abs_path ↦ elim (abs around.pwd main_path) [
      | none ↦ false
      | some abs_main ↦ abs_path == abs_main
    ]
  ]

  cd_name : Str → Str → Str → Str
  unfolding is_main_worktree
  cd_name branch path main_path =
      if is_main_worktree path main_path
      then str "@"
      else if branch == []
      then base path
      else branch

  unfoldable pub display_success_message : Str → Str → Str → Bool → AddWorld G → Added AddError
  unfolding cd_name
  display_success_message branch path main_path stay w =
      and_then (print print_failed (created path branch) w) (
        print print_failed
          (if stay then to_switch (cd_name branch path main_path) else changed_directory))

  marked_with : Option Str → AddWorld G → Added AddError
  marked_with none w = (ok tt, w)
  marked_with (some text) w =
      if around.can_mark
      then (ok tt, record w { marked = w.marked ++ text ∷ [] })
      else (err mark_failed, w)

  warned : Added HookError → Added AddError
  warned (ok _, w) = (ok tt, w)
  warned (err e, w) = print print_failed (hook_warning e) w

  -- The world after the hooks, whose failure is only a warning.
  unfoldable pub after_hooks : List Hook → Str → Str → AddWorld G → AddWorld G
  unfolding warned run_post_create_hooks
  after_hooks hooks main_path path w = (warned (run_post_create_hooks hooks main_path path w)).1

  -- "Emit cd marker before handling exec error"
  after_exec : AddInput → Str → Str → Str → Added ExecError → Added AddError
  unfolding marked_with display_success_message
  after_exec input path branch main_path (result, w) =
      and_then (if input.stay then (ok tt, w) else marked_with (emit around.environ path) w) (λ w1.
        elim result [
          | err e ↦ (err (exec_failed path e), w1)
          | ok _ ↦ display_success_message branch path main_path input.stay w1
        ])

  -- What follows the creation of the worktree.
  unfoldable pub after_create : AddInput → List Hook → Str → Str → Str → AddWorld G → Added AddError
  unfolding warned after_exec run_post_create_hooks execute_post_create_command
  after_create input hooks main_path path branch w =
      and_then (warned (run_post_create_hooks hooks main_path path w)) (λ w1.
        after_exec input path branch main_path (execute_post_create_command input.exec path w1))

  created_with :
      AddInput
      → List Hook
      → Str
      → Str
      → Str
      → Result Str (List CommandResult)
      → AddWorld G
      → Added AddError
  unfolding after_create analyze_git_worktree_error
  created_with input hooks main_path path branch (err e) w = (err (AddError.not_executed e), w)
  created_with input hooks main_path path branch (ok []) w =
      after_create input hooks main_path path branch w
  created_with input hooks main_path path branch (ok (r ∷ _)) w = elim r.error [
    | none ↦ after_create input hooks main_path path branch w
    | some e ↦ (err (analyze_git_worktree_error path branch e r.output), w)
  ]

  unfoldable pub create :
      AddInput → List Hook → Str → Str → Str → Command → AddWorld G → Added AddError
  unfolding created_with
  create input hooks main_path path branch command w =
      let (made, g) = around.ensure_dir (dir path) w.git in
      if made
      then (let (result, g') = around.execute (command ∷ []) g in
          created_with input hooks main_path path branch result (record w { git = g' }))
      else (err dir_not_made, record w { git = g })

  -- `newRepository`
  repository_at : (Str → Git) → Str → Option Git
  repository_at git_in path = if is_git_repository (git_in path) then some (git_in path) else none

  -- The path, the branch and the git command, before anything is changed.
  pub planned : AddInput → Str → AddWorld G → Result AddError (Str × Str × Command)
  unfolding resolve_worktree_path resolve_branch_tracking build_worktree_command repository_at
  planned input main_path w =
      resolve_worktree_path around.url_parse around.data_home
        (around.get_remote_url w.git (str "origin")) input
      >>= λ (path, branch).
          (resolve_branch_tracking (repository_at (around.git_in w.git) main_path) input
            >>= λ track. ok (path, branch, build_worktree_command input path track))

  -- A plan that is an error changes nothing.
  abbrev pub carried :
      AddInput
      → List Hook
      → Str
      → Result AddError (Str × Str × Command)
      → AddWorld G
      → Added AddError
  carried input hooks main_path (err e) w = (err e, w)
  carried input hooks main_path (ok (path, branch, command)) w =
      create input hooks main_path path branch command w

  unfoldable pub add_command_with_command_executor :
      AddInput → List Hook → Str → AddWorld G → Added AddError
  unfolding planned create
  add_command_with_command_executor input hooks main_path w =
      carried input hooks main_path (planned input main_path w) w
