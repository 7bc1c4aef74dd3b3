-- ===== src/Git/Branches.antt =====
-- internal/git/repository.go: the branches of a repository. Git itself is a parameter: what one of
-- its read-only commands, given by its arguments, comes to.
pub mod Resolution
use wtp.Base.{ℕ, suc, Bool, true, false, ◌||◌, Option, none, some, List, [], ◌∷◌, ◌++◌}
use wtp.Base.{nat_eq, if◌then◌else◌}
use wtp.Base.Result.{Result, ok, err, ◌>>=◌}
use wtp.Base.Text.{Str, str, ◌==◌, contains, has_byte, split_byte, split_n, trim_space}
use wtp.Base.Dict.{Dict, insert}
use wtp.Errors
use wtp.Git.{newline}

-- The end of a process: its output with its output and error stream together, an `exec.ExitError`
-- with the exit code unless a signal ended it and the error's text, or another error.
pub data GitRun : Type 0 where
  succeeded : Str → Str → GitRun
  exited : Option ℕ → Str → Str → GitRun
  not_run : Str → GitRun

-- `r.gitCommand(args...)`, run
abbrev pub Git : Type 0
Git = List Str → GitRun

pub data BranchError : Type 0 where
  invalid_branch_name branch_not_found : Str → BranchError
  multiple_branches_found : Str → List Str → BranchError
  existence_unknown remotes_unknown unpushed_unknown : Str → BranchError

-- `err.Error()`
unfoldable pub error_text : BranchError → Str
error_text (invalid_branch_name branch) = Errors.invalid_branch_name branch
error_text (branch_not_found branch) = Errors.branch_not_found branch
error_text (multiple_branches_found branch remotes) = Errors.multiple_branches_found branch remotes
error_text (existence_unknown e) = str "failed to check branch existence: " ++ e
error_text (remotes_unknown e) = str "failed to get remote branches: " ++ e
error_text (unpushed_unknown e) = str "failed to check unpushed commits: " ++ e

abbrev pub slash : ℕ
slash = b'/'

abbrev carriage_return : ℕ
carriage_return = 13

-- The guard on what becomes an argument of git.
unfoldable pub is_unsafe : Str → Bool
is_unsafe name =
    contains (str "..") name || (has_byte newline name || has_byte carriage_return name)

abbrev pub show_ref : Str → List Str
show_ref branch =
    str "show-ref" ∷ str "--verify" ∷ str "--quiet" ∷ (str "refs/heads/" ++ branch) ∷ []

existence_of : GitRun → Result BranchError Bool
existence_of (succeeded _ _) = ok true
existence_of (exited none e _) = err (existence_unknown e)
existence_of (exited (some code) e _) =
    if nat_eq code 1 then ok false else err (existence_unknown e)
existence_of (not_run e) = err (existence_unknown e)

abbrev pub for_each_ref : Str → List Str
for_each_ref branch =
    str "for-each-ref" ∷ str "--format=%(refname:short)" ∷ (str "refs/remotes/*/" ++ branch) ∷ []

-- `parts[0]` of a line that falls into two parts.
remote_of : List Str → Option Str
remote_of (remote ∷ _ ∷ []) = some remote
remote_of _ = none

read_ref : Str → Dict Str → Dict Str
unfolding remote_of
read_ref line remotes = if line == [] then remotes else elim (remote_of (split_n 2 slash line)) [
  | none ↦ remotes
  | some remote ↦ insert remote line remotes
]

-- The loop of `GetRemoteBranches`
pub read_refs : List Str → Dict Str → Dict Str
unfolding read_ref
read_refs [] remotes = remotes
read_refs (line ∷ lines) remotes = read_refs lines (read_ref (trim_space line) remotes)

remote_branches_of : GitRun → Result BranchError (Dict Str)
unfolding read_refs
remote_branches_of (succeeded output _) = ok (read_refs (split_byte newline (trim_space output)) [])
remote_branches_of (exited _ e _) = err (remotes_unknown e)
remote_branches_of (not_run e) = err (remotes_unknown e)

abbrev pub keys : Dict Str → List Str
keys [] = []
keys ((remote, _) ∷ remotes) = remote ∷ keys remotes

pub resolved_by : Str → Dict Str → Result BranchError (Str × Bool)
resolved_by branch [] = err (branch_not_found branch)
resolved_by branch ((_, remote_branch) ∷ []) = ok (remote_branch, true)
resolved_by branch (a ∷ b ∷ remotes) = err (multiple_branches_found branch (keys (a ∷ b ∷ remotes)))

-- "Treat no upstream as no unpushed commits"
unpushed_of : GitRun → Result BranchError Bool
unpushed_of (succeeded _ combined) = ok (if trim_space combined == [] then false else true)
unpushed_of (exited _ e combined) =
    if contains (str "no upstream configured") combined || contains (str "no such branch") combined
    then ok false
    else err (unpushed_unknown e)
unpushed_of (not_run e) = err (unpushed_unknown e)

module _ (git : Git) where
  unfoldable pub branch_exists : Str → Result BranchError Bool
  unfolding existence_of is_unsafe
  branch_exists branch =
      if branch == [] || is_unsafe branch
      then err (invalid_branch_name branch)
      else existence_of (git (show_ref branch))

  unfoldable pub get_remote_branches : Str → Result BranchError (Dict Str)
  unfolding remote_branches_of is_unsafe
  get_remote_branches branch =
      if is_unsafe branch
      then err (invalid_branch_name branch)
      else remote_branches_of (git (for_each_ref branch))

  -- The branch, and whether a remote has it: what `ResolveBranch` returns.
  unfoldable pub resolve_branch : Str → Result BranchError (Str × Bool)
  unfolding branch_exists get_remote_branches resolved_by
  resolve_branch branch = branch_exists branch >>= λ exists.
      if exists then ok (branch, false) else (get_remote_branches branch >>= resolved_by branch)

  unfoldable pub has_unpushed_commits : Str → Result BranchError Bool
  unfolding unpushed_of is_unsafe
  has_unpushed_commits branch =
      if is_unsafe branch
      then err (invalid_branch_name branch)
      else unpushed_of (git (str "log" ∷ (branch ++ str "@{u}.." ++ branch) ∷ str "--oneline" ∷ []))
