-- ===== src/Cli/Cd.antt =====
-- cli/cd.go: the path that `wtp cd` prints, and the names that its completion writes. The picker is
-- fzf, an external program.
pub mod Listed
use wtp.Base.{Bool, not, ◌&&◌, ◌||◌, Option, none, some, List, [], ◌∷◌, ◌++◌, if◌then◌else◌}
use wtp.Base.Lists.{no_items}
use wtp.Base.Result.{Result, ok, err}
use wtp.Base.Dict.{in_set}
use wtp.Base.Text.{Str, str, ◌==◌, has_prefix, trim_suffix}
use wtp.Command.{CommandResult, Executor, git_worktree_list}
use wtp.Git.{Worktree, parse_worktree_list_output}
use wtp.Cli.Resolver.{NotFound, available_worktree_names, resolve_worktree_path_by_name}

pub data Pick : Type 0 where
  selected failed : Str → Pick
  canceled : Pick

-- `Find` of a picker, and `none` where there is none or it is not available.
abbrev pub Finder : Type 0
Finder = Option (List Str → Str → Pick)

pub data CdError : Type 0 where
  not_listed picker_failed : Str → CdError
  not_there : NotFound → CdError
  panicked not_printed : CdError

-- A path or a name, or nothing where the picker was dismissed.
abbrev pub Choice : Type 0
Choice = Result CdError (Option Str)

choice_of : Pick → Choice
choice_of (selected name) = ok (some name)
choice_of canceled = ok none
choice_of (failed e) = err (picker_failed e)

-- "No argument provided: interactive picker or fall back to main worktree"
wanted : Finder → List Str → Str → Choice
unfolding choice_of
wanted none names name = ok (some (if name == [] then str "@" else name))
wanted (some find) names name = if name == [] then choice_of (find names []) else ok (some name)

resolved : Result NotFound Str → Choice
resolved (ok path) = ok (some path)
resolved (err e) = err (not_there e)

-- A name that is picked is resolved; a picker that fails leaves the first error.
picked : List Worktree → NotFound → Pick → Choice
unfolding resolved
picked worktrees e (selected name) = resolved (resolve_worktree_path_by_name name worktrees)
picked worktrees e canceled = ok none
picked worktrees e (failed _) = err (not_there e)

-- "No exact match: try fuzzy selection if fzf is available"
or_picked : Finder → List Worktree → Str → Result NotFound Str → Choice
unfolding picked
or_picked finder worktrees name (ok path) = ok (some path)
or_picked none worktrees name (err e) = err (not_there e)
or_picked (some find) worktrees name (err e) =
    picked worktrees e (find (available_worktree_names worktrees) name)

target_of : Finder → List Worktree → Choice → Choice
unfolding or_picked
target_of finder worktrees (err e) = err e
target_of finder worktrees (ok none) = ok none
target_of finder worktrees (ok (some name)) =
    or_picked finder worktrees name (resolve_worktree_path_by_name name worktrees)

print : Bool → Choice → Choice
print can_print (err e) = err e
print can_print (ok none) = ok none
print can_print (ok (some path)) = if can_print then ok (some path) else err not_printed

path_to_print : Bool → Finder → Str → Result Str (List CommandResult) → Choice
unfolding wanted target_of print
path_to_print can_print finder name (err e) = err (not_listed e)
path_to_print can_print finder name (ok []) = err panicked
path_to_print can_print finder name (ok (r ∷ rest)) =
    let worktrees = parse_worktree_list_output r.output in
    print can_print
      (target_of finder worktrees (wanted finder (available_worktree_names worktrees) name))

unfoldable pub cd_command_with_command_executor :
    {G : Type 0} → Executor G → Bool → Finder → Str → G → Choice × G
unfolding path_to_print
cd_command_with_command_executor execute can_print finder name g =
    let (result, g') = execute (git_worktree_list ∷ []) g in
    (path_to_print can_print finder name result, g')

-- A star marks where one is.
starred : Str → Str → Str → Str
starred cwd path name = if path == cwd then name ++ str "*" else name

unfoldable pub write_main_worktree_for_cd : Str → List Worktree → List Str
unfolding starred
write_main_worktree_for_cd cwd [] = []
write_main_worktree_for_cd cwd (wt ∷ wts) =
    let rest = write_main_worktree_for_cd cwd wts in
    if wt.is_main then starred cwd wt.path (str "@") ∷ [] else rest

unfoldable pub write_worktrees_for_cd : Str → List Worktree → List Str
unfolding starred
write_worktrees_for_cd cwd [] = []
write_worktrees_for_cd cwd (wt ∷ wts) =
    let rest = write_worktrees_for_cd cwd wts in
    if wt.is_main || wt.branch == [] then rest else starred cwd wt.path wt.branch ∷ rest

-- The arguments before the one that is completed, without flags.
used_names : List Str → List Str
used_names [] = []
used_names (arg ∷ args) =
    let rest = used_names args in
    if arg == [] || has_prefix (str "-") arg then rest else trim_suffix (str "*") arg ∷ rest

-- The loop over the lines that were written.
candidates : Str → List Str → List Str → List Str
candidates current used [] = []
candidates current used (line ∷ lines) =
    let rest = candidates current used lines in
    let candidate = trim_suffix (str "*") line in
    if candidate == [] || in_set candidate used || candidate == current
    then rest
    else candidate ∷ rest

unfoldable pub complete_worktrees_for_cd : Str → Str → List Str → List Worktree → List Str
unfolding used_names candidates write_main_worktree_for_cd write_worktrees_for_cd
complete_worktrees_for_cd cwd current previous worktrees =
    let normalised = trim_suffix (str "*") current in
    if normalised == [] && not (no_items previous)
    then []
    else candidates normalised (used_names previous)
        (write_main_worktree_for_cd cwd worktrees ++ write_worktrees_for_cd cwd worktrees)
