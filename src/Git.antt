-- ===== src/Git.antt =====
-- internal/git/worktree.go and the text side of internal/git/repository.go: worktrees and the two
-- parsers of `git worktree list --porcelain`.
pub mod Listing
pub mod Porcelain
pub mod Branches
pub mod Repository
use mathlib.Core.List.{reverse}
use wtp.Base.{ℕ, Bool, true, false, ◌||◌, Option, none, some, List, [], ◌∷◌, ◌++◌, if◌then◌else◌}
use wtp.Base.Text.{
  Str, str, ◌==◌, has_prefix, cut_prefix, trim_prefix, trim_space, split_byte, after_last,
}

pub record Worktree : Type 0 where
  pub path : Str
  pub branch : Str
  pub head : Str
  pub is_main : Bool

abbrev pub no_worktree : Worktree
no_worktree = record { path = []; branch = []; head = []; is_main = false }

-- "DetachedKeyword is the branch value for worktrees with a detached HEAD."
abbrev pub detached_keyword : Str
detached_keyword = str "detached"

abbrev pub newline : ℕ
newline = 10

-- `Worktree.IsMainWorktree`
unfoldable pub is_main_worktree : Worktree → Str → Bool
is_main_worktree w main_worktree_path =
    if w.is_main
    then true
    else if main_worktree_path == []
    then false
    else w.path == main_worktree_path

-- `Worktree.CompletionName`
unfoldable pub completion_name : Worktree → Str
completion_name w = if w.is_main then str "@" else w.branch

-- The variables of the loop in `ParseWorktreeListOutput`.
pub record ListState : Type 0 where
  pub worktrees : List Worktree
  pub current : Worktree
  pub is_first : Bool

-- A blank line, and the end of the text: the current worktree is complete if it has a path.
unfoldable pub complete : ListState → ListState
complete st = if st.current.path == [] then st else record {
  worktrees =
      st.worktrees ++ record st.current { is_main = st.is_first || st.current.is_main } ∷ [];
  current = no_worktree;
  is_first = false;
}

unfoldable pub read_line : Str → Worktree → Worktree
read_line line w =
    if has_prefix (str "worktree ") line
    then record w { path = trim_prefix (str "worktree ") line }
    else if has_prefix (str "HEAD ") line
    then record w { head = trim_prefix (str "HEAD ") line }
    else if has_prefix (str "branch ") line
    then record w { branch = trim_prefix (str "branch refs/heads/") line }
    else if line == detached_keyword
    then record w { branch = detached_keyword }
    else w

unfoldable pub read_lines : List Str → ListState → ListState
unfolding complete read_line
read_lines [] st = st
read_lines (line ∷ lines) st =
    read_lines lines
      (if line == [] then complete st else record st { current = read_line line st.current })

abbrev pub start : ListState
start = record { worktrees = []; current = no_worktree; is_first = true }

unfoldable pub parse_worktree_list_output : Str → List Worktree
unfolding read_lines complete
parse_worktree_list_output output =
    (complete (read_lines (split_byte newline (trim_space output)) start)).worktrees

-- The loop of `parseWorktreeList`, in which a worktree is current or none is.
unfoldable pub read_current : Str → Option Worktree → Option Worktree
read_current line none = elim (cut_prefix (str "worktree ") line) [
  | some after ↦ some (record no_worktree { path = after })
  | none ↦ none
]
read_current line (some w) = elim (cut_prefix (str "worktree ") line) [
  | some after ↦ some (record no_worktree { path = after })
  | none ↦ elim (cut_prefix (str "HEAD ") line) [
    | some after ↦ some (record w { head = after })
    | none ↦ elim (cut_prefix (str "branch refs/heads/") line) [
      | some after ↦ some (record w { branch = after })
      | none ↦ some w
    ]
  ]
]

abbrev pub add_current : List Worktree → Option Worktree → List Worktree
add_current worktrees none = worktrees
add_current worktrees (some w) = worktrees ++ w ∷ []

unfoldable pub scan_lines : List Str → List Worktree → Option Worktree → List Worktree
unfolding read_current
scan_lines [] worktrees current = add_current worktrees current
scan_lines (raw ∷ lines) worktrees current =
    let line = trim_space raw in
    let blank = scan_lines lines (add_current worktrees current) none in
    let filled = scan_lines lines worktrees (read_current line current) in
    if line == [] then blank else filled

unfoldable pub parse_worktree_list : Str → List Worktree
unfolding scan_lines
parse_worktree_list output = scan_lines (split_byte newline output) [] none

-- The marking in `GetWorktrees`: the first one is the main worktree.
unfoldable pub mark_main : List Worktree → List Worktree
mark_main [] = []
mark_main (w ∷ ws) = record w { is_main = true } ∷ ws

-- `GetWorktrees` on the output of a git that succeeded.
unfoldable pub get_worktrees : Str → List Worktree
unfolding parse_worktree_list mark_main
get_worktrees output = mark_main (parse_worktree_list output)
