-- ===== src/Maintenance/Sync/Failures.antt =====
-- What a sync counts as failed, and where what it reports comes from.
use wtp.Base.{
  ℕ, ◌+◌, ◌≡◌, refl, ◌∙◌, true, Option, none, some, List, [], ◌∷◌, ◌++◌, arith, Bool-cases, ◌⊎◌,
  inl, inr, if◌then◌else◌,
}
use wtp.Base.Result.{Result, ok, err, Result-cases}
use wtp.Base.Text.{Str}
use wtp.Base.Lists.{All, All-append}
use wtp.Git.{Worktree}
use wtp.Github.{PrInfo, CiStatus}
use wtp.Remote.{state_key}
use wtp.Store.{IsFaithful}
use wtp.Maintenance.Checks.{BranchCheck, Gh, unchecked, is_done, fetch, fetch_all}
use wtp.Maintenance.Checks.Eligible.{checks_of}
use wtp.Maintenance.Checks.Fetched.{
  has_ended, fetch-err, fetch-none, fetch-ended, fetch-unknown, fetch-known,
}
use wtp.Maintenance.Sync.{
  Archived, SyncWorld, Runner, attempt, Loop, refresh, attempted, step_with, step, steps,
  try_archive,
}
use wtp.Maintenance.Sync.Archives.{report, try_archive-IsArchived}

abbrev ci_failures : Result Str (Option CiStatus) → ℕ
ci_failures (err e) = 1
ci_failures (ok ci) = 0

abbrev pr_failures : Gh → Str → Result Str (Option PrInfo) → ℕ
pr_failures gh branch (err e) = 1
pr_failures gh branch (ok none) = 0
pr_failures gh branch (ok (some pr)) = if has_ended pr then 0 else ci_failures (gh.ci_status branch)

-- How many worktrees gh cannot tell the PR of, or the CI of a PR that is neither merged nor closed.
abbrev pub failures : Gh → List Worktree → ℕ
failures gh [] = 0
failures gh (wt ∷ wts) = pr_failures gh wt.branch (gh.pr_for_branch wt.branch) + failures gh wts

module _ {G : Type 0} (r : Runner G) where
  -- An archive of this worktree is reported, whose PR gh says to be merged or closed.
  pub record IsReportOf (gh : Gh) (a : Archived) (wt : Worktree) : Type 0 where
    pub pr : PrInfo
    pub answered : gh.pr_for_branch wt.branch ≡ ok (some pr)
    pub ended : has_ended pr ≡ true
    pub reported : a ≡ report r (unchecked wt (state_key r.repo_id wt.branch)) pr

  -- It is of one of these worktrees.
  abbrev pub ReportsOneOf : Gh → List Worktree → Archived → Type 0
  ReportsOneOf gh [] a = ⊥
  ReportsOneOf gh (wt ∷ wts) a = IsReportOf gh a wt ⊎ ReportsOneOf gh wts a

  failed-attempted :
      (c : BranchCheck) (l : Loop r) (o : Option Archived × SyncWorld G)
      → c.ci_error ≡ none
      → (attempted r c l o).failed ≡ l.failed
  unfolding attempted refresh
  failed-attempted c l (some a, s) h = refl
  failed-attempted c l (none, s) h = rw h refl

  abbrev ended_check : Worktree → Str → PrInfo → BranchCheck
  ended_check wt key pr = record (unchecked wt key) { pr = some pr }

  -- One check of a worktree counts as failed what gh cannot tell of it, archived or not.
  failed-step :
      (gh : Gh) (wt : Worktree) (key : Str) (l : Loop r)
      → (step r (fetch gh (unchecked wt key)) l).failed
        ≡ l.failed + pr_failures gh wt.branch (gh.pr_for_branch wt.branch)
  unfolding step step_with attempt refresh attempted is_done
  failed-step gh wt key l = elim (Result-cases (gh.pr_for_branch wt.branch)) [
    | inr (e, answer) ↦ rw (fetch-err gh wt key e answer, answer) refl
    | inl (none, answer) ↦ rw (fetch-none gh wt key answer, answer) (omega arith)
    | inl (some pr, answer) ↦ elim (Bool-cases (has_ended pr)) [
      | inl ended ↦
          rw (fetch-ended gh wt key pr answer ended, answer, ended)
            (failed-attempted (ended_check wt key pr) l
                (try_archive r (ended_check wt key pr) pr l.sync) refl
              ∙ omega arith)
      | inr ended ↦ elim (Result-cases (gh.ci_status wt.branch)) [
        | inr (e, ci) ↦ rw (fetch-unknown gh wt key pr answer e ended ci, answer, ended, ci) refl
        | inl (known, ci) ↦
            rw (fetch-known gh wt key pr answer known ended ci, answer, ended, ci) (omega arith)
      ]
    ]
  ]

  pub failed-steps :
      (gh : Gh) (wts : List Worktree) (l : Loop r)
      → (steps r (fetch_all gh (checks_of r.repo_id wts)) l).failed ≡ l.failed + failures gh wts
  unfolding steps fetch_all
  failed-steps gh [] l = omega arith
  failed-steps gh (wt ∷ wts) l =
      let key = state_key r.repo_id wt.branch in
      omega (
        arith,
        failed-step gh wt key l,
        failed-steps gh wts (step r (fetch gh (unchecked wt key)) l),
      )

  module _ (faithful : IsFaithful r.state_codec) (gh : Gh) where
    -- A check reports no archive, or one of its worktree.
    abbrev Reports : Worktree → List Archived → List Archived → Type 0
    Reports wt before after =
        (after ≡ before) ⊎ ((a : Archived) × IsReportOf gh a wt × (after ≡ before ++ a ∷ []))

    attempted-ReportsOneOf :
        (wt : Worktree) (c : BranchCheck) (l : Loop r) (o : Option Archived × SyncWorld G)
        → ((a : Archived) → o.0 ≡ some a → IsReportOf gh a wt)
        → c.ci_error ≡ none
        → Reports wt l.archived (attempted r c l o).archived
    unfolding attempted refresh
    attempted-ReportsOneOf wt c l (some a, s) is_report h = inr (a, is_report a refl, refl)
    attempted-ReportsOneOf wt c l (none, s) is_report h = inl (rw h refl)

    step-ReportsOneOf :
        (wt : Worktree) (l : Loop r)
        → Reports wt l.archived
            (step r (fetch gh (unchecked wt (state_key r.repo_id wt.branch))) l).archived
    unfolding step step_with attempt refresh attempted is_done
    step-ReportsOneOf wt l =
        let key = state_key r.repo_id wt.branch in
        elim (Result-cases (gh.pr_for_branch wt.branch)) [
          | inr (e, answer) ↦ rw (fetch-err gh wt key e answer) (inl refl)
          | inl (none, answer) ↦ rw (fetch-none gh wt key answer) (inl refl)
          | inl (some pr, answer) ↦ elim (Bool-cases (has_ended pr)) [
            | inl ended ↦
                rw (fetch-ended gh wt key pr answer ended, ended)
                  (attempted-ReportsOneOf wt (ended_check wt key pr) l
                    (try_archive r (ended_check wt key pr) pr l.sync)
                    (λ a h. record {
                      pr = pr;
                      answered = answer;
                      ended = ended;
                      reported =
                          (try_archive-IsArchived r faithful (ended_check wt key pr) pr l.sync a
                            h).reported;
                    })
                    refl)
            | inr ended ↦ elim (Result-cases (gh.ci_status wt.branch)) [
              | inr (e, ci) ↦ rw (fetch-unknown gh wt key pr answer e ended ci, ended) (inl refl)
              | inl (known, ci) ↦
                  rw (fetch-known gh wt key pr answer known ended ci, ended) (inl refl)
            ]
          ]
        ]

    steps-All :
        (P : Archived → Type 0) (wts : List Worktree) (l : Loop r)
        → ((a : Archived) → ReportsOneOf gh wts a → P a)
        → All P l.archived
        → All P (steps r (fetch_all gh (checks_of r.repo_id wts)) l).archived
    unfolding steps fetch_all
    steps-All P [] l into all = all
    steps-All P (wt ∷ wts) l into all =
        let l' = step r (fetch gh (unchecked wt (state_key r.repo_id wt.branch))) l in
        steps-All P wts l' (λ a of_rest. into a (inr of_rest))
          (elim (step-ReportsOneOf wt l) [
            | inl same ↦ rw same all
            | inr (a, is_report, grown) ↦
                rw grown (All-append P l.archived (a ∷ []) all (into a (inl is_report), tt))
          ])

    -- What a loop that starts with no archives reports is of its worktrees.
    pub steps-ReportsOneOf :
        (wts : List Worktree) (l : Loop r)
        → l.archived ≡ []
        → All (ReportsOneOf gh wts) (steps r (fetch_all gh (checks_of r.repo_id wts)) l).archived
    steps-ReportsOneOf wts l empty = steps-All (ReportsOneOf gh wts) wts l (λ a h. h) (rw empty tt)
