-- ===== src/Cli/Resolver.antt =====
-- cli/worktree_resolver.go: worktrees by name.
pub mod Lookup
use wtp.Base.{Bool, true, false, ◌||◌, List, [], ◌∷◌, if◌then◌else◌}
use wtp.Base.Result.{Result, ok, err}
use wtp.Base.Text.{Str, str, ◌==◌, trim_suffix}
use wtp.Git.{Worktree}

-- "Special names"
unfoldable pub is_main_name : Str → Bool
is_main_name name = name == str "@" || name == str "root"

-- The body of the loop: the worktree that the name addresses.
unfoldable pub matches : Str → Worktree → Bool
unfolding is_main_name
matches name wt = if is_main_name name then wt.is_main else wt.branch == name

unfoldable pub available_worktree_names : List Worktree → List Str
available_worktree_names [] = []
available_worktree_names (wt ∷ wts) =
    let rest = available_worktree_names wts in
    if wt.is_main then str "@" ∷ rest else if wt.branch == [] then rest else wt.branch ∷ rest

-- `errors.WorktreeNotFound`, with the name and the names that there are.
pub record NotFound : Type 0 where
  pub name : Str
  pub available : List Str

find_path : Str → NotFound → List Worktree → Result NotFound Str
unfolding matches
find_path name missing [] = err missing
find_path name missing (wt ∷ wts) =
    let rest = find_path name missing wts in if matches name wt then ok wt.path else rest

abbrev pub normalised : Str → Str
normalised name = trim_suffix (str "*") name

unfoldable pub resolve_worktree_path_by_name : Str → List Worktree → Result NotFound Str
unfolding find_path available_worktree_names
resolve_worktree_path_by_name name worktrees =
    find_path (normalised name)
      (record { name = normalised name; available = available_worktree_names worktrees }) worktrees
