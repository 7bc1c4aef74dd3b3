-- ===== src/Cli/Add.antt =====
-- cli/add.go: the arguments of `wtp add`, the path and the branch that they name, the git command that
-- is built from them and the errors that git's output is read as.
pub mod Create
pub mod Reading
pub mod Setup
use wtp.Base.{ℕ, Bool, true, false, not, ◌&&◌, ◌||◌, Option, none, some, List, [], ◌∷◌, ◌++◌}
use wtp.Base.{if◌then◌else◌}
use wtp.Base.Result.{Result, ok, err, ◌>>=◌}
use wtp.Base.Text.{Str, str, ◌==◌, contains, to_lower}
use wtp.Errors.{multiple_phrase}
use wtp.FilePath.{join}
use wtp.Remote.{ParseError, RepoIdentifier, parse, storage_path}
use wtp.Procenv.{worktree_storage_root}
use wtp.Config.{ConfigError}
use wtp.Command.{Command, git_worktree_add}
use wtp.Git.Branches.{Git, BranchError, error_text, resolve_branch}

-- The arguments and the flags; a flag that is not given has the empty text.
pub record AddInput : Type 0 where
  pub args : List Str
  pub branch : Str
  pub exec : Str
  pub stay : Bool

pub data ExecError : Type 0 where
  not_printed empty_result : ExecError
  not_executed command_failed : Str → ExecError

-- An error of git is its text.
pub data AddError : Type 0 where
  branch_name_required no_origin not_in_repository dir_not_made print_failed : AddError
  remote_unparsed : Str → ParseError → AddError
  unresolved : BranchError → AddError
  in_multiple_remotes : Str → BranchError → AddError
  not_executed : Str → AddError
  branch_not_found : Str → AddError
  worktree_already_exists : Str → Str → Str → AddError
  branch_already_exists path_already_exists multiple_branches : Str → Str → AddError
  invalid_path creation_failed : Str → Str → Str → AddError
  mark_failed no_directory : AddError
  config_unloaded : Str → ConfigError → AddError
  exec_failed : Str → ExecError → AddError

-- `cmd.Args().Len() == 0`
abbrev no_args : List Str → Bool
no_args [] = true
no_args (_ ∷ _) = false

-- `cmd.Args().Get(0)`, which is empty if there is none.
abbrev pub first_arg : List Str → Str
first_arg [] = []
first_arg (arg ∷ _) = arg

unfoldable pub validate_add_input : AddInput → Result AddError (Unit {0})
validate_add_input input =
    if no_args input.args && input.branch == [] then err branch_name_required else ok tt

-- The branch that the worktree is for: the flag overrides the argument.
unfoldable pub branch_name : AddInput → Str
branch_name input = if not (input.branch == []) then input.branch else first_arg input.args

origin_of : (Str → Option (Str × Str)) → Option Str → Result AddError RepoIdentifier
origin_of url_parse none = err no_origin
origin_of url_parse (some url) = elim (parse url_parse url) [
  | err e ↦ err (remote_unparsed url e)
  | ok repo_id ↦ ok repo_id
]

-- `resolveWorktreePath`, where `origin` is the answer for the remote "origin".
unfoldable pub resolve_worktree_path :
    (Str → Option (Str × Str)) → Str → Option Str → AddInput → Result AddError (Str × Str)
unfolding origin_of branch_name
resolve_worktree_path url_parse data_home origin input = origin_of url_parse origin >>= λ repo_id.
    (let parent_dir = join (worktree_storage_root data_home) (storage_path repo_id) in
      ok (join parent_dir (branch_name input), branch_name input))

-- The branch to track: none for a local branch.
tracked : Str → Result BranchError (Str × Bool) → Result AddError Str
tracked branch (err e) =
    if contains multiple_phrase (error_text e)
    then err (in_multiple_remotes branch e)
    else err (unresolved e)
tracked branch (ok (resolved, is_remote)) = ok (if is_remote then resolved else [])

-- `resolveBranchTracking`, with the git of the main repository if that is one.
unfoldable pub resolve_branch_tracking : Option Git → AddInput → Result AddError Str
unfolding tracked branch_name
resolve_branch_tracking repo input =
    if not (input.branch == []) || branch_name input == [] then ok [] else elim repo [
      | none ↦ err not_in_repository
      | some git ↦ tracked (branch_name input) (resolve_branch git (branch_name input))
    ]

-- The commitish without a branch to track.
plain_commitish : Str → List Str → Str
plain_commitish branch [] = []
plain_commitish branch (arg ∷ []) = arg
plain_commitish branch (arg ∷ second ∷ args) = if branch == [] then arg else second

-- `opts.Branch` with a branch to track.
tracking_branch : Str → List Str → Str
tracking_branch branch [] = branch
tracking_branch branch (arg ∷ _) = if branch == [] then arg else branch

unfoldable pub build_worktree_command : AddInput → Str → Str → Command
unfolding plain_commitish tracking_branch
build_worktree_command input path resolved_track =
    if resolved_track == []
    then git_worktree_add path (plain_commitish input.branch input.args)
        (record { force = false; detach = false; branch = input.branch; track = [] })
    else git_worktree_add path resolved_track (record {
      force = false;
      detach = false;
      branch = tracking_branch input.branch input.args;
      track = resolved_track;
    })

unfoldable pub is_branch_not_found_error : Str → Bool
is_branch_not_found_error output =
    contains (str "invalid reference") output
    || (contains (str "not a valid object name") output
        || (contains (str "pathspec") output && contains (str "did not match") output))

unfoldable pub is_worktree_already_exists_error : Str → Bool
is_worktree_already_exists_error output =
    contains (str "already checked out") output || contains (str "already used by worktree") output

unfoldable pub is_branch_already_exists_error : Str → Bool
is_branch_already_exists_error output =
    contains (str "branch") output && contains (str "already exists") output

unfoldable pub is_path_already_exists_error : Str → Bool
is_path_already_exists_error output = contains (str "already exists") output

unfoldable pub is_multiple_branches_error : Str → Bool
is_multiple_branches_error output =
    contains (str "more than one remote") output || contains (str "ambiguous") output

unfoldable pub is_invalid_path_error : Str → Str → Str → Bool
is_invalid_path_error output path git_output =
    contains (str "could not create directory") output
    || (contains (str "unable to create") output
        || (contains (str "is not a directory") output
            || (contains (str "fatal:") output
                || (contains (str "/dev/") path || git_output == []))))

unfoldable pub analyze_git_worktree_error : Str → Str → Str → Str → AddError
unfolding is_branch_not_found_error is_worktree_already_exists_error is_branch_already_exists_error
    is_path_already_exists_error is_multiple_branches_error is_invalid_path_error
analyze_git_worktree_error path branch git_error git_output =
    let output = to_lower git_output in
    if is_branch_not_found_error output
    then branch_not_found branch
    else if is_worktree_already_exists_error output
    then worktree_already_exists branch path git_error
    else if is_branch_already_exists_error output
    then branch_already_exists branch git_error
    else if is_path_already_exists_error output
    then path_already_exists path git_error
    else if is_multiple_branches_error output
    then multiple_branches branch git_error
    else if is_invalid_path_error output path git_output
    then invalid_path path git_output git_error
    else creation_failed path git_output git_error
