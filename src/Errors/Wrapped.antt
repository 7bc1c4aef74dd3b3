-- ===== src/Errors/Wrapped.antt =====
-- The messages of internal/errors/errors.go that wrap the error of something else, with advice that is
-- chosen by what that error says.
use wtp.Base.{ℕ, ◌+◌, Bool, not, ◌&&◌, ◌||◌, List, [], ◌∷◌, ◌++◌, if◌then◌else◌}
use wtp.Base.Lists.{no_items}
use wtp.Base.Text.{Str, str, contains, itoa}
use wtp.Errors.{text, paragraph, bullet, bullets, quoted, original}

-- Every such message: what failed, the advice, and the error itself.
abbrev wrapped : Str → Str → Str → Str
wrapped failed advice e = failed ++ (advice ++ original e)

abbrev says : Str → Str → Bool
says e phrase = contains phrase e

creation_advice : Str → Str
unfolding text
creation_advice e =
    if says e (str "already checked out")
    then paragraph (
        str "Cause: Branch is already checked out in another worktree"
        ∷ str
            "Solution: Use '--force' flag to allow multiple checkouts, or choose a different branch"
        ∷ [])
    else if says e (str "not a valid object name")
    then paragraph (
        str "Cause: Branch or commit does not exist"
        ∷ str "Solutions:"
        ∷ bullet (str "Check the branch name spelling")
        ∷ bullet (str "Use 'git branch -a' to see available branches")
        ∷ bullet (str "Create the branch first with 'wtp add -b <branch-name>'")
        ∷ [])
    else if says e (str "destination path") && says e (str "already exists")
    then paragraph (
        str "Cause: Target directory already exists"
        ∷ str "Solutions:"
        ∷ bullet (str "Remove the existing directory")
        ∷ bullet (str "Use a different branch name")
        ∷ [])
    else []

unfoldable pub worktree_creation_failed : Str → Str → Str → Str
unfolding creation_advice
worktree_creation_failed path branch git_error =
    wrapped
      (str "failed to create worktree at "
        ++ (quoted path ++ (str " for branch " ++ quoted branch)))
      (creation_advice git_error) git_error

removal_suggestions : Str → List Str
removal_suggestions e =
    if says e (str "not a working tree")
    then str "Check if the worktree path is correct"
      ∷ str "Run 'wtp list' to see available worktrees"
      ∷ []
    else if says e (str "contains modified or untracked files")
    then str "Commit or stash changes in the worktree first"
      ∷ str "Use '--force' flag to remove anyway"
      ∷ []
    else if says e (str "locked")
    then str "Unlock the worktree first with 'git worktree unlock'"
      ∷ str "Use '--force' flag to remove anyway"
      ∷ []
    else if says e (str "permission denied")
    then str "Check file permissions for the worktree directory"
      ∷ str "Ensure you have write access to the parent directory"
      ∷ []
    else []

suggested : List Str → Str
unfolding text bullets
suggested suggestions =
    if no_items suggestions then [] else paragraph (str "Suggestions:" ∷ []) ++ bullets suggestions

unfoldable pub worktree_removal_failed : Str → Str → Str
unfolding removal_suggestions suggested
worktree_removal_failed path git_error =
    wrapped (str "failed to remove worktree at " ++ quoted path)
      (suggested (removal_suggestions git_error)) git_error

branch_advice : Str → Bool → Str
unfolding text
branch_advice e is_forced =
    if not is_forced && says e (str "not fully merged")
    then paragraph (
        str "Cause: Branch is not fully merged"
        ∷ str "Solution: Use '--force-branch' to delete anyway, or merge the branch first"
        ∷ [])
    else if says e (str "not found")
    then paragraph (
        str "Cause: Branch does not exist"
        ∷ str "Tip: Run 'git branch' to see available branches"
        ∷ [])
    else if says e (str "checked out")
    then paragraph (
        str "Cause: Branch is currently checked out"
        ∷ str "Solution: Switch to a different branch first"
        ∷ [])
    else []

unfoldable pub branch_removal_failed : Str → Str → Bool → Str
unfolding branch_advice
branch_removal_failed branch_name git_error is_forced =
    wrapped (str "failed to remove branch " ++ quoted branch_name)
      (branch_advice git_error is_forced) git_error

load_advice : Str → Str
unfolding text
load_advice e =
    if says e (str "yaml") || says e (str "unmarshal")
    then paragraph (
        str "Cause: YAML syntax error in configuration file"
        ∷ str "Solutions:"
        ∷ bullet (str "Check YAML syntax and indentation")
        ∷ bullet (str "Validate YAML at https://yamllint.com/")
        ∷ bullet (str "Run 'wtp init' to recreate the configuration")
        ∷ [])
    else if says e (str "no such file")
    then paragraph (
        str "Cause: Configuration file does not exist"
        ∷ str "Solution: Run 'wtp init' to create a configuration file"
        ∷ [])
    else if says e (str "permission denied")
    then paragraph (
        str "Cause: Permission denied reading configuration file"
        ∷ str "Solution: Check file permissions with 'ls -la .wtp.yml'"
        ∷ [])
    else []

unfoldable pub config_load_failed : Str → Str → Str
unfolding load_advice
config_load_failed config_path parse_error =
    wrapped (str "failed to load configuration from " ++ quoted config_path)
      (load_advice parse_error) parse_error

access_advice : Str → Str
unfolding text
access_advice e =
    if says e (str "permission denied")
    then paragraph (
        str "Cause: Permission denied"
        ∷ str "Solutions:"
        ∷ bullet (str "Check directory permissions")
        ∷ bullet (str "Run with appropriate privileges")
        ∷ bullet (str "Ensure you own the directory")
        ∷ [])
    else if says e (str "no such file or directory")
    then paragraph (
        str "Cause: Directory does not exist"
        ∷ str "Solutions:"
        ∷ bullet (str "Create the parent directory first")
        ∷ bullet (str "Check the path spelling")
        ∷ bullet (str "Use an absolute path")
        ∷ [])
    else []

unfoldable pub directory_access_failed : Str → Str → Str → Str
unfolding access_advice
directory_access_failed operation path original_error =
    wrapped (str "failed to " ++ (operation ++ (str " directory: " ++ path)))
      (access_advice original_error) original_error

hook_advice : Str → Str
unfolding text
hook_advice e =
    if says e (str "permission denied")
    then paragraph (
        str "Cause: Permission denied"
        ∷ str "Solutions:"
        ∷ bullet (str "Check file permissions")
        ∷ bullet (str "Ensure the command is executable")
        ∷ bullet (str "Check source/destination path permissions")
        ∷ [])
    else if says e (str "no such file")
    then paragraph (
        str "Cause: File or command not found"
        ∷ str "Solutions:"
        ∷ bullet (str "Check file paths in .wtp.yml")
        ∷ bullet (str "Ensure the command exists in PATH")
        ∷ bullet (str "Use absolute paths for files")
        ∷ [])
    else if says e (str "command not found")
    then paragraph (
        str "Cause: Command not found"
        ∷ str "Solutions:"
        ∷ bullet (str "Install the required command")
        ∷ bullet (str "Check command spelling in .wtp.yml")
        ∷ bullet (str "Use full path to command")
        ∷ [])
    else []

unfoldable pub hook_execution_failed : ℕ → Str → Str → Str
unfolding hook_advice
hook_execution_failed hook_index hook_type original_error =
    wrapped (str "failed to execute " ++ (hook_type ++ (str " hook #" ++ itoa (hook_index + 1))))
      (hook_advice original_error) original_error
