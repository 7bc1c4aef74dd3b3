-- ===== src/Cli/List/Rows.antt =====
-- What cli/list.go shows of each worktree: names, rows and texts that are cut to a width.
pub mod Width
use wtp.Base.{
  ℕ, zero, suc, ◌-◌, ◌/◌, Bool, not, ◌&&◌, ◌||◌, Option, none, some, List, [], ◌∷◌, ◌++◌,
  if◌then◌else◌, leb, nat_eq,
}
use wtp.Base.Dict.{Dict, lookup, in_set}
use wtp.Base.Lists.{length}
use wtp.Base.Text.{Str, str, ◌==◌}
use wtp.Git.{Worktree, detached_keyword}
use wtp.Cli.List.{Prci}

unfoldable pub format_branch_display : Str → Str
format_branch_display branch =
    if branch == detached_keyword
    then str "(detached)"
    else if branch == []
    then str "(no branch)"
    else branch

-- `displayWorktreesQuiet`: the lines that it prints.
unfoldable pub quiet_names : List Worktree → List Str
quiet_names [] = []
quiet_names (wt ∷ worktrees) =
    if wt.branch == detached_keyword || wt.branch == []
    then quiet_names worktrees
    else (if wt.is_main then str "@" else wt.branch) ∷ quiet_names worktrees

pub record ListRow : Type 0 where
  pub branch_display : Str
  pub pr : Str
  pub ci : Str
  pub head : Str

branch_column : Str → List Str → Worktree → Str
unfolding format_branch_display
branch_column current_path archived wt =
    (if wt.is_main then str "@" else format_branch_display wt.branch)
    ++ ((if wt.path == current_path then str "*" else [])
        ++ (if in_set wt.branch archived then str " (archived)" else []))

-- The two texts of the status, empty if there is none.
status_of : Bool → Option Prci → Str × Str
status_of shown none = ([], [])
status_of shown (some prci) = if shown then (prci.pr_fmt, prci.ci_fmt) else ([], [])

list_row : Str → Bool → Dict Prci → List Str → Worktree → ListRow
unfolding branch_column status_of
list_row current_path gh_available prci archived wt =
    let shown =
      gh_available
      && (not wt.is_main && (not (wt.branch == detached_keyword) && not (wt.branch == []))) in
    let (pr, ci) = status_of shown (lookup wt.branch prci) in
    record {
      branch_display = branch_column current_path archived wt;
      pr = pr;
      ci = ci;
      head = wt.head;
    }

-- `buildListRows`
unfoldable pub build_list_rows : Str → Bool → Dict Prci → List Str → List Worktree → List ListRow
unfolding list_row
build_list_rows current_path gh_available prci archived [] = []
build_list_rows current_path gh_available prci archived (wt ∷ worktrees) =
    list_row current_path gh_available prci archived wt
    ∷ build_list_rows current_path gh_available prci archived worktrees

-- `s[:n]`, and `s[len(s)-n:]` for an n that the text is long enough for.
unfoldable pub take : ℕ → Str → Str
take zero s = []
take (suc n) [] = []
take (suc n) (c ∷ s) = c ∷ take n s

unfoldable pub drop : ℕ → Str → Str
drop zero s = s
drop (suc n) [] = []
drop (suc n) (c ∷ s) = drop n s

abbrev pub ellipsis : Str
ellipsis = str "..."

-- `truncateStr` on the runes of the text. A width below 0 is taken for 0, as the source does.
unfoldable pub truncate_str : Str → ℕ → Str
unfolding take drop
truncate_str runes max_width =
    let start_len = (max_width - 3) / 3 in
    let end_len = max_width - 3 - start_len in
    if nat_eq max_width 0 || leb (length runes) max_width
    then runes
    else if leb max_width 3
    then take max_width runes
    else take start_len runes ++ (ellipsis ++ drop (length runes - end_len) runes)

abbrev pub head_display_length : ℕ
head_display_length = 8

abbrev pub default_max_path_width : ℕ
default_max_path_width = 56

-- The cells of a row of the table.
unfoldable pub cells : Bool → ℕ → ListRow → List Str
unfolding truncate_str
cells gh_available max_path_width row =
    let head =
      if leb (length row.head) head_display_length
      then row.head
      else take head_display_length row.head in
    let branch = truncate_str row.branch_display max_path_width in
    if gh_available then branch ∷ row.pr ∷ row.ci ∷ head ∷ [] else branch ∷ head ∷ []

-- The width of the branch column, from the flag with whether it was given, and the environment,
-- whose number `atoi` reads. A number that is not positive counts for none.
unfoldable pub max_path_width : (Str → Option ℕ) → ℕ → Bool → Str → ℕ
max_path_width atoi flag is_set env =
    let from_env =
      if env == []
      then flag
      else elim (atoi env) [ none ↦ flag | some parsed ↦ if leb 1 parsed then parsed else flag ] in
    let chosen = if nat_eq flag default_max_path_width && not is_set then from_env else flag in
    if leb 1 chosen then chosen else default_max_path_width
