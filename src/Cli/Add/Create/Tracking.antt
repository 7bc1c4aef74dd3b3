-- ===== src/Cli/Add/Create/Tracking.antt =====
-- Which git command `wtp add <branch>` comes to, by where the branch is.
use wtp.Base.{Bool, true, false, List, [], ◌∷◌}
use wtp.Base.{if◌then◌else◌}
use wtp.Base.Result.{Result, ok, err}
use wtp.Base.Text.{Str, str, contains}
use wtp.Errors
use wtp.Errors.{multiple_phrase}
use wtp.FilePath.{join}
use wtp.Remote.{RepoIdentifier, storage_path}
use wtp.Procenv.{worktree_storage_root}
use wtp.Command.{Command}
use wtp.Config.{Hook}
use wtp.Git.Branches.{Git, branch_not_found, multiple_branches_found}
use wtp.Git.Branches.Resolution.{remote_ref}
use wtp.Cli.Add.{AddInput, AddError, unresolved, in_multiple_remotes}
use wtp.Cli.Add.Create.{AddAround}

-- `wtp add <branch>`
abbrev pub named : Str → Str → Bool → AddInput
named branch exec stay = record { args = branch ∷ []; branch = []; exec = exec; stay = stay }

abbrev git_command : List Str → Command
git_command args = record { name = str "git"; args = args; work_dir = []; interactive = false }

-- A local branch is checked out; the branch of a single remote becomes a local branch that tracks it.
abbrev pub plan : Str → Str → Bool → List Str → Result AddError (Str × Str × Command)
plan path branch true remotes =
    ok (path, branch, git_command (str "worktree" ∷ str "add" ∷ path ∷ branch ∷ []))
plan path branch false [] =
    if contains multiple_phrase (Errors.branch_not_found branch)
    then err (in_multiple_remotes branch (branch_not_found branch))
    else err (unresolved (branch_not_found branch))
plan path branch false (remote ∷ []) = ok (
  path,
  branch,
  git_command (
      str "worktree"
      ∷ str "add"
      ∷ str "-b"
      ∷ branch
      ∷ str "--track"
      ∷ path
      ∷ remote_ref branch remote
      ∷ []),
)
plan path branch false (a ∷ b ∷ rest) =
    err (in_multiple_remotes branch (multiple_branches_found branch (a ∷ b ∷ rest)))

module _ {G : Type 0} (around : AddAround G) (hooks : List Hook) (main_path : Str) where
  abbrev pub storage_of : RepoIdentifier → Str → Str
  storage_of repo_id branch =
      join (join (worktree_storage_root around.data_home) (storage_path repo_id)) branch
