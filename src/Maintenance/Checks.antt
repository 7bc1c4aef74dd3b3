-- ===== src/Maintenance/Checks.antt =====
-- The checks of internal/maintenance/maintenance.go: which worktrees a sync looks at, and what gh
-- answers about them.
pub mod Eligible
pub mod Fetched
use wtp.Base.{
  ℕ, zero, suc, ◌+◌, Bool, true, false, not, ◌&&◌, ◌||◌, Option, none, some, List, [], ◌∷◌, ◌++◌,
  if◌then◌else◌, nat_eq,
}
use wtp.Base.Result.{Result, ok, err}
use wtp.Base.Text.{Str, str, ◌==◌, has_prefix}
use wtp.Base.Dict.{Dict, insert}
use wtp.Base.Lists.{length}
use wtp.Git.{Worktree, detached_keyword}
use wtp.Remote.{RepoIdentifier, state_key, storage_path}
use wtp.Github.{PrInfo, CiStatus, state_closed, state_merged, format_ci_status}
use wtp.State.{WorktreeState, State, entry_at, load_state}

pub record BranchCheck : Type 0 where
  pub wt : Worktree
  pub key : Str
  pub pr : Option PrInfo
  pub ci : Option CiStatus
  pub error : Option Str
  pub ci_error : Option Str

abbrev pub passed_by : Worktree → Bool
passed_by wt = wt.is_main || (wt.branch == [] || wt.branch == detached_keyword)

abbrev pub unchecked : Worktree → Str → BranchCheck
unchecked wt key = record {
  wt = wt;
  key = key;
  pr = none;
  ci = none;
  error = none;
  ci_error = none;
}

unfoldable pub collect_checks : RepoIdentifier → List Worktree → State → List BranchCheck
collect_checks repo_id [] st = []
collect_checks repo_id (wt ∷ wts) st =
    let rest = collect_checks repo_id wts st in
    let key = state_key repo_id wt.branch in
    let entry = entry_at st key in
    if passed_by wt
    then rest
    else if entry.archived || entry.suppress_auto_archive
    then rest
    else unchecked wt key ∷ rest

-- "merged or closed"
unfoldable pub is_done : Option PrInfo → Bool
is_done none = false
is_done (some pr) = pr.state == state_merged || pr.state == state_closed

-- gh's answers about a branch.
pub record Gh : Type 0 where
  pub pr_for_branch : Str → Result Str (Option PrInfo)
  pub ci_status : Str → Result Str (Option CiStatus)

with_ci : BranchCheck → Result Str (Option CiStatus) → BranchCheck
with_ci c (ok ci) = record c { ci = ci; ci_error = none }
with_ci c (err e) = record c { ci = none; ci_error = some e }

with_pr : Gh → BranchCheck → Result Str (Option PrInfo) → BranchCheck
unfolding with_ci is_done
with_pr gh c (err e) = record c { pr = none; error = some e }
with_pr gh c (ok none) = record c { pr = none; error = none }
with_pr gh c (ok (some pr)) =
    let c' : BranchCheck = record c { pr = some pr; error = none } in
    if is_done (some pr) then c' else with_ci c' (gh.ci_status c.wt.branch)

-- One goroutine of `fetchAll`. A canceled context is an answer of gh that is an error.
unfoldable pub fetch : Gh → BranchCheck → BranchCheck
unfolding with_pr
fetch gh c = with_pr gh c (gh.pr_for_branch c.wt.branch)

unfoldable pub fetch_all : Gh → List BranchCheck → List BranchCheck
unfolding fetch
fetch_all gh [] = []
fetch_all gh (c ∷ cs) = fetch gh c ∷ fetch_all gh cs
