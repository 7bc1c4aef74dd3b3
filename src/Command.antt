-- ===== src/Command.antt =====
-- internal/command: commands, the builders of git commands and the executor that runs commands in
-- sequence. `G` is the state that commands read and change; a shell over it stands for os/exec.
pub mod Sequence
use wtp.Base.{Bool, true, false, not, ◌&&◌, Option, none, some, List, [], ◌∷◌, ◌++◌, if◌then◌else◌}
use wtp.Base.Result.{Result, ok, err}
use wtp.Base.Text.{Str, str, ◌==◌, after_last}

pub record Command : Type 0 where
  pub name : Str
  pub args : List Str
  pub work_dir : Str
  pub interactive : Bool

-- An error is its message.
pub record CommandResult : Type 0 where
  pub command : Command
  pub output : Str
  pub error : Option Str

-- `ShellExecutor.Execute`: the output, the error if there is one, and the state afterwards.
abbrev pub Shell : Type 0 → Type 0
Shell G = Str → List Str → Str → Bool → G → Str × Option Str × G

-- `Executor.Execute`
abbrev pub Executor : Type 0 → Type 0
Executor G = List Command → G → Result Str (List CommandResult) × G

module _ {G : Type 0} (shell : Shell G) where
  unfoldable pub run_all : List Command → G → List CommandResult × G
  run_all [] g = ([], g)
  run_all (c ∷ cs) g =
      let (output, error, g') = shell c.name c.args c.work_dir c.interactive g in
      let (results, g'') = run_all cs g' in
      (record { command = c; output = output; error = error } ∷ results, g'')

  -- `executor.Execute`, which itself never fails.
  unfoldable pub execute : Executor G
  unfolding run_all
  execute cs g = let (results, g') = run_all cs g in (ok results, g')

abbrev git : List Str → Command
git args = record { name = str "git"; args = args; work_dir = []; interactive = false }

pub record GitWorktreeAddOptions : Type 0 where
  pub force : Bool
  pub detach : Bool
  pub branch : Str
  pub track : Str

-- "If it contains a slash, take the last part"
unfoldable pub extract_branch_name : Str → Str
extract_branch_name ref = after_last b'/' ref

abbrev given : Bool → List Str → List Str
given true args = args
given false args = []

unfoldable pub git_worktree_add : Str → Str → GitWorktreeAddOptions → Command
unfolding extract_branch_name
git_worktree_add path commitish opts = git (
    (str "worktree" ∷ str "add" ∷ [])
    ++ (given opts.force (str "--force" ∷ [])
        ++ (given opts.detach (str "--detach" ∷ [])
            ++ (given (not (opts.branch == [])) (str "-b" ∷ opts.branch ∷ [])
                ++ (given (not (opts.track == [])) (
                      str "--track"
                      ∷ given (not opts.detach && opts.branch == [])
                          (str "-b" ∷ extract_branch_name commitish ∷ []))
                    ++ (path ∷ given (not (commitish == [])) (commitish ∷ [])))))))

unfoldable pub git_branch_delete : Str → Bool → Command
git_branch_delete branch_name force =
    git (str "branch" ∷ (if force then str "-D" else str "-d") ∷ branch_name ∷ [])

unfoldable pub git_branch_force_delete : Str → Command
unfolding git_branch_delete
git_branch_force_delete branch_name = git_branch_delete branch_name true

unfoldable pub git_worktree_remove : Str → Bool → Command
git_worktree_remove path force =
    git ((str "worktree" ∷ str "remove" ∷ []) ++ (given force (str "--force" ∷ []) ++ path ∷ []))

abbrev pub git_worktree_list : Command
git_worktree_list = git (str "worktree" ∷ str "list" ∷ str "--porcelain" ∷ [])
