-- ===== src/Git/Repository.antt =====
-- internal/git/repository.go: what a repository is asked and told besides its branches. The end of a
-- git process is a parameter, as in wtp.Git.Branches.
pub mod MainPath
use wtp.Base.{Bool, true, false, ◌||◌, Option, none, some, List, [], ◌∷◌, ◌++◌, if◌then◌else◌}
use wtp.Base.Result.{Result, ok, err, ◌>>=◌}
use wtp.Base.Text.{Str, str, ◌==◌, has_suffix, trim_space}
use wtp.FilePath.{is_abs, abs, join, dir, base}
use wtp.Git.{Worktree, get_worktrees}
use wtp.Git.Branches.{Git, GitRun, succeeded, exited, not_run, is_unsafe}

pub record Repository : Type 0 where
  pub path : Str

pub data RepositoryError : Type 0 where
  not_in_git_repository main_unknown no_absolute_path list_failed : RepositoryError
  commit_unknown status_unknown create_failed remove_failed : RepositoryError
  invalid_sha remote_unknown : Str → RepositoryError
  git_command_failed : Str → Str → RepositoryError

-- What `cmd.Output()` returns, with every error replaced.
output_or : RepositoryError → GitRun → Result RepositoryError Str
output_or e (succeeded output _) = ok output
output_or e (exited _ _ _) = err e
output_or e (not_run _) = err e

has_run : GitRun → Bool
has_run (succeeded _ _) = true
has_run (exited _ _ _) = false
has_run (not_run _) = false

done_or : RepositoryError → GitRun → Result RepositoryError (Unit {0})
done_or e (succeeded _ _) = ok tt
done_or e (exited _ _ _) = err e
done_or e (not_run _) = err e

-- The output with the error stream, empty if nothing ran.
combined_output : GitRun → Str
combined_output (succeeded _ combined) = combined
combined_output (exited _ _ combined) = combined
combined_output (not_run _) = []

abbrev pub common_dir : List Str
common_dir = str "rev-parse" ∷ str "--git-common-dir" ∷ []

absolute_or : Option Str → Result RepositoryError Str
absolute_or none = err no_absolute_path
absolute_or (some path) = ok path

-- "If commonDir ends with .git, get its parent directory"
repository_of : Str → Str
repository_of common = if has_suffix (str ".git") common then dir common else common

type_of : GitRun → Result RepositoryError Bool
type_of (succeeded output _) = ok (trim_space output == str "commit")
type_of (exited _ _ _) = ok false
type_of (not_run _) = err commit_unknown

-- `isGitRepository`: git rev-parse "works for both regular repos and worktrees".
unfoldable pub is_git_repository : Git → Bool
unfolding has_run
is_git_repository git = has_run (git (str "rev-parse" ∷ str "--git-dir" ∷ []))

-- `NewRepository`, with the git that runs in the directory.
unfoldable pub new_repository : (Str → Git) → Str → Result RepositoryError Repository
unfolding is_git_repository
new_repository git_in path =
    if is_git_repository (git_in path)
    then ok (record { path = path })
    else err not_in_git_repository

-- `GetRepositoryName`
unfoldable pub get_repository_name : Repository → Str
get_repository_name r = base r.path

module _ (git : Git) where
  -- `GetMainWorktreePath`, where `pwd` is the working directory of the process.
  unfoldable pub get_main_worktree_path : Option Str → Repository → Result RepositoryError Str
  unfolding output_or absolute_or repository_of
  get_main_worktree_path pwd r = output_or main_unknown (git common_dir) >>= λ output.
      (let root = repository_of (trim_space output) in
        if is_abs root then ok root else absolute_or (abs pwd (join r.path root)))

  -- `GetWorktrees`
  unfoldable pub listed_worktrees : Result RepositoryError (List Worktree)
  unfolding output_or get_worktrees
  listed_worktrees =
      output_or list_failed (git (str "worktree" ∷ str "list" ∷ str "--porcelain" ∷ []))
      >>= λ output. ok (get_worktrees output)

  -- `GetRemoteURL`
  unfoldable pub get_remote_url : Str → Result RepositoryError Str
  unfolding output_or
  get_remote_url remote_name =
      output_or (remote_unknown remote_name) (git (str "remote" ∷ str "get-url" ∷ remote_name ∷ []))
      >>= λ output. ok (trim_space output)

  -- `CommitExists`
  unfoldable pub commit_exists : Str → Result RepositoryError Bool
  unfolding type_of is_unsafe
  commit_exists sha =
      if is_unsafe sha || sha == []
      then err (invalid_sha sha)
      else type_of (git (str "cat-file" ∷ str "-t" ∷ sha ∷ []))

  -- `IsWorktreeDirty`
  unfoldable pub is_worktree_dirty : Str → Result RepositoryError Bool
  unfolding output_or
  is_worktree_dirty worktree_path =
      output_or status_unknown
        (git (str "-C" ∷ worktree_path ∷ str "status" ∷ str "--porcelain" ∷ []))
      >>= λ output. ok (if trim_space output == [] then false else true)

-- `strings.Join(args, " ")`
spaced : List Str → Str
spaced [] = []
spaced (x ∷ []) = x
spaced (x ∷ y ∷ args) = x ++ 32 ∷ spaced (y ∷ args)

executed_with : List Str → GitRun → Result RepositoryError (Unit {0})
unfolding spaced combined_output
executed_with args (succeeded _ _) = ok tt
executed_with args (exited _ _ combined) =
    err (git_command_failed (str "git " ++ spaced args) combined)
executed_with args (not_run _) = err (git_command_failed (str "git " ++ spaced args) [])

-- Commands of git that change the repository `G`.
module _ {G : Type 0} (git : List Str → G → GitRun × G) where
  -- `CreateWorktree`
  unfoldable pub create_worktree : Str → Str → G → Result RepositoryError (Unit {0}) × G
  unfolding done_or
  create_worktree path branch g =
      let checkout = if branch == [] then [] else branch ∷ [] in
      let (run, g') = git (str "worktree" ∷ str "add" ∷ path ∷ checkout) g in
      (done_or create_failed run, g')

  -- `RemoveWorktree`
  unfoldable pub remove_worktree : Str → Bool → G → Result RepositoryError (Unit {0}) × G
  unfolding done_or
  remove_worktree path force g =
      let args = (if force then str "--force" ∷ [] else []) ++ path ∷ [] in
      let (run, g') = git (str "worktree" ∷ str "remove" ∷ args) g in
      (done_or remove_failed run, g')

  -- `ExecuteGitCommand`
  unfoldable pub execute_git_command : List Str → G → Result RepositoryError (Unit {0}) × G
  unfolding executed_with
  execute_git_command args g = let (run, g') = git args g in (executed_with args run, g')
