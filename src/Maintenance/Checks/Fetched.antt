-- ===== src/Maintenance/Checks/Fetched.antt =====
-- What a check holds after `fetchAll`, by gh's answers.
use wtp.Base.{◌≡◌, refl, Bool, true, false, ◌||◌, Option, none, some}
use wtp.Base.Result.{ok, err}
use wtp.Base.Text.{Str, ◌==◌}
use wtp.Git.{Worktree}
use wtp.Github.{PrInfo, CiStatus, state_merged, state_closed}
use wtp.Maintenance.Checks.{Gh, unchecked, is_done, with_ci, with_pr, fetch}

-- "merged or closed"
abbrev pub has_ended : PrInfo → Bool
has_ended pr = pr.state == state_merged || pr.state == state_closed

module _ (gh : Gh) (wt : Worktree) (key : Str) where
  pub fetch-err :
      (e : Str)
      → gh.pr_for_branch wt.branch ≡ err e
      → fetch gh (unchecked wt key) ≡ record (unchecked wt key) { error = some e }
  unfolding fetch with_pr
  fetch-err e answer = rw (answer, with_pr) refl

  pub fetch-none :
      gh.pr_for_branch wt.branch ≡ ok none → fetch gh (unchecked wt key) ≡ unchecked wt key
  unfolding fetch with_pr
  fetch-none answer = rw (answer, with_pr) refl

  module _ (pr : PrInfo) (answer : gh.pr_for_branch wt.branch ≡ ok (some pr)) where
    pub fetch-ended :
        has_ended pr ≡ true
        → fetch gh (unchecked wt key) ≡ record (unchecked wt key) { pr = some pr }
    unfolding fetch with_pr is_done
    fetch-ended ended = rw (answer, with_pr, ended) refl

    pub fetch-unknown :
        (e : Str)
        → has_ended pr ≡ false
        → gh.ci_status wt.branch ≡ err e
        → fetch gh (unchecked wt key)
          ≡ record (unchecked wt key) { pr = some pr; ci_error = some e }
    unfolding fetch with_pr is_done with_ci
    fetch-unknown e ended ci = rw (answer, with_pr, ended, ci, with_ci) refl

    pub fetch-known :
        (ci : Option CiStatus)
        → has_ended pr ≡ false
        → gh.ci_status wt.branch ≡ ok ci
        → fetch gh (unchecked wt key) ≡ record (unchecked wt key) { pr = some pr; ci = ci }
    unfolding fetch with_pr is_done with_ci
    fetch-known ci ended e = rw (answer, with_pr, ended, e, with_ci) refl
