-- ===== src/Maintenance/Sync/Account.antt =====
-- What the summary of a sync says, next to what the sync did.
use wtp.Base.{
  Bool, ℕ, suc, ◌+◌, ◌≤◌, ◌≡◌, refl, ap, ◌∙◌, Option, none, some, true, List, [], ◌∷◌, ◌++◌, arith,
  Bool-cases, ◌⊎◌, inl, inr,
}
use wtp.Base.Result.{Result, ok, err, ok-injective}
use wtp.Base.Text.{Str}
use wtp.Base.Lists.{length, length-append, All}
use wtp.Base.Dict.{Dict, insert}
use wtp.Git.{Worktree, parse_worktree_list_output}
use wtp.Command.{CommandResult, git_worktree_list}
use wtp.Github.{PrInfo}
use wtp.Cache.{set_batch}
use wtp.Remote.{RepoIdentifier}
use wtp.Store.{IsFaithful, Disk, StoreError}
use wtp.State.{State, load_state}
use wtp.Maintenance.Sync.{Archived, cache_entry, SyncWorld, Runner}
use wtp.Maintenance.Sync.{
  attempt, Loop, refresh, attempted, step_with, step, steps, Summary, batched, finished, start,
  sync_loaded, sync_listed, with_failure, on_listing, on_results, with_gh, sync,
}
use wtp.Maintenance.Sync.Archives.{IsUntouched, try_archive-IsUntouched}
use wtp.Maintenance.Sync.Failures.{failures, ReportsOneOf, failed-steps, steps-ReportsOneOf}
use wtp.Maintenance.Checks.{BranchCheck, Gh, collect_checks, fetch_all, is_done}
use wtp.Maintenance.Checks.Eligible.{eligible, checks_of, collect_checks-eligible}

length-insert : {V : Type 0} (k : Str) (v : V) (m : Dict V) → length (insert k v m) ≤ suc (length m)
unfolding insert
length-insert k v [] = omega arith
length-insert k v ((j, w) ∷ m) = ground (arith, length-insert k v m)

module _ {G : Type 0} (r : Runner G) (faithful : IsFaithful r.state_codec) where
  -- The checks that the loop has accounted for.
  abbrev accounted : Loop r → ℕ
  accounted l = l.failed + length l.archived + length l.entries

  accounted-refresh :
      (c : BranchCheck) (e : Option Str) (l : Loop r)
      → accounted (refresh r c e l) ≤ suc (accounted l)
  unfolding refresh
  accounted-refresh c (some e) l = omega arith
  accounted-refresh c none l = omega (arith, length-insert c.key (cache_entry c.pr c.ci) l.entries)

  accounted-step_with :
      (c : BranchCheck) (e : Option Str) (l : Loop r)
      → accounted (step_with r c e l) ≤ suc (accounted l)
  unfolding step_with
  accounted-step_with c (some e) l = omega arith
  accounted-step_with c none l = accounted-attempted (attempt r c c.pr l.sync)
    where
      accounted-attempted :
          (o : Option Archived × SyncWorld G) → accounted (attempted r c l o) ≤ suc (accounted l)
      accounted-attempted (some a, s) = omega (arith, length-append l.archived (a ∷ []))
      accounted-attempted (none, s) = accounted-refresh c c.ci_error (record l { sync = s })

  accounted-steps :
      (cs : List BranchCheck) (l : Loop r) → accounted (steps r cs l) ≤ accounted l + length cs
  unfolding steps step
  accounted-steps [] l = omega arith
  accounted-steps (c ∷ cs) l =
      omega (arith, accounted-steps cs (step r c l), accounted-step_with c c.error l)

  -- One check archives its worktree, or leaves git and the state file as they are.
  abbrev IsStep : Loop r → Loop r → Type 0
  IsStep l l' =
      ((a : Archived) × (l'.archived ≡ l.archived ++ a ∷ []))
      ⊎ ((l'.archived ≡ l.archived) × IsUntouched r faithful l.sync l'.sync)

  attempt-IsUntouched :
      (c : BranchCheck) (s : SyncWorld G) (pr : Option PrInfo)
      → (attempt r c pr s).0 ≡ none
      → IsUntouched r faithful s (attempt r c pr s).1
  unfolding attempt
  attempt-IsUntouched c s none h = (refl, refl)
  attempt-IsUntouched c s (some pr) h = elim (Bool-cases (is_done (some pr))) [
    | inl d ↦ rw d (try_archive-IsUntouched r faithful c pr s (rw d at h))
    | inr d ↦ rw d (refl, refl)
  ]

  step_with-IsStep : (c : BranchCheck) (e : Option Str) (l : Loop r) → IsStep l (step_with r c e l)
  unfolding step_with
  step_with-IsStep c (some e) l = inr (refl, (refl, refl))
  step_with-IsStep c none l =
      attempted-IsStep (attempt r c c.pr l.sync) (attempt-IsUntouched c l.sync c.pr)
    where
      refresh-IsStep :
          (s : SyncWorld G) (e : Option Str)
          → IsUntouched r faithful l.sync s
          → IsStep l (refresh r c e (record l { sync = s }))
      refresh-IsStep s (some e) same = inr (refl, same)
      refresh-IsStep s none same = inr (refl, same)

      attempted-IsStep :
          (o : Option Archived × SyncWorld G)
          → (o.0 ≡ none → IsUntouched r faithful l.sync o.1)
          → IsStep l (attempted r c l o)
      attempted-IsStep (some a, s) same = inl (a, refl)
      attempted-IsStep (none, s) same = refresh-IsStep s c.ci_error (same refl)

  -- What the loop over the checks has done from `l` to `l'`.
  record IsRun (l l' : Loop r) : Type 0 where
    more : length l.archived ≤ length l'.archived
    untouched : l'.archived ≡ [] → IsUntouched r faithful l.sync l'.sync

  steps-IsRun : (cs : List BranchCheck) (l : Loop r) → IsRun l (steps r cs l)
  unfolding steps step
  steps-IsRun [] l = record { more = omega arith; untouched = λ h. (refl, refl) }
  steps-IsRun (c ∷ cs) l =
      let rest = steps-IsRun cs (step r c l) in
      elim (step_with-IsStep c c.error l) [
        | inl (a, grown) ↦ record {
          more = omega (arith, ap length grown, length-append l.archived (a ∷ []), rest.more);
          untouched = λ h. absurd (
              omega (
                arith,
                ap length grown,
                length-append l.archived (a ∷ []),
                rest.more,
                ap length h,
              ));
        }
        | inr (same, (git, file)) ↦ record {
          more = omega (arith, ap length same, rest.more);
          untouched = λ h. let (git', file') = rest.untouched h in (git' ∙ git, file' ∙ file);
        }
      ]

  -- What the summary of a sync says of the worktrees that were listed.
  pub record IsAccounted (gh : Gh) (worktrees : List Worktree) (state : State) (summary : Summary r)
      : Type 0 where
    pub all : summary.checked ≡ length (eligible r.repo_id state worktrees)
    pub failed : summary.failed ≡ failures gh (eligible r.repo_id state worktrees)
    pub counted : summary.failed + length summary.archived ≤ summary.checked
    pub reports : All (ReportsOneOf r gh (eligible r.repo_id state worktrees)) summary.archived

  batched_world :
      (s : SyncWorld G) (w : Result StoreError (Unit {0}) × Disk) → (batched r s w).world ≡ s.world
  unfolding batched
  batched_world s (err e, disk) = refl
  batched_world s (ok _, disk) = refl

  length-fetch_all : (gh : Gh) (cs : List BranchCheck) → length (fetch_all gh cs) ≡ length cs
  unfolding fetch_all
  length-fetch_all gh [] = refl
  length-fetch_all gh (c ∷ cs) = ap suc (length-fetch_all gh cs)

  length-checks_of :
      (repo_id : RepoIdentifier) (wts : List Worktree) → length (checks_of repo_id wts) ≡ length wts
  length-checks_of repo_id [] = refl
  length-checks_of repo_id (wt ∷ wts) = ap suc (length-checks_of repo_id wts)

  module _ (gh : Gh) (worktrees : List Worktree) (s : SyncWorld G) where
    loaded_summary : State → Summary r
    loaded_summary st =
        (finished r (length (fetch_all gh (collect_checks r.repo_id worktrees st)))
          (steps r (fetch_all gh (collect_checks r.repo_id worktrees st)) (start r s))).0

    loaded_summary-IsAccounted : (st : State) → IsAccounted gh worktrees st (loaded_summary st)
    unfolding loaded_summary finished
    loaded_summary-IsAccounted st =
        let wts = eligible r.repo_id st worktrees in
        let checks = fetch_all gh (collect_checks r.repo_id worktrees st) in
        let same = collect_checks-eligible r.repo_id worktrees st in
        record {
          all =
              length-fetch_all gh (collect_checks r.repo_id worktrees st)
              ∙ ap length same
              ∙ length-checks_of r.repo_id wts;
          failed = rw same (failed-steps r gh wts (start r s) ∙ omega arith);
          counted = omega (arith, accounted-steps checks (start r s));
          reports = rw same (steps-ReportsOneOf r faithful gh wts (start r s) refl);
        }

    sync_listed-loaded :
        (st : State)
        → load_state r.state_codec r.faults s.world.disk ≡ ok st
        → (sync_listed r gh worktrees s).0 ≡ ok (loaded_summary st)
    unfolding sync_listed sync_loaded loaded_summary
    sync_listed-loaded st l =
        ap (λ (loaded : Result StoreError State). (sync_loaded r gh worktrees s loaded).0) l

    sync_loaded-IsUntouched :
        (loaded : Result StoreError State) (summary : Summary r)
        → (sync_loaded r gh worktrees s loaded).0 ≡ ok summary
        → summary.archived ≡ []
        → IsUntouched r faithful s (sync_loaded r gh worktrees s loaded).1
    unfolding sync_loaded finished
    sync_loaded-IsUntouched (err e) summary h none_archived = cc h
    sync_loaded-IsUntouched (ok st) summary h none_archived =
        let checks = fetch_all gh (collect_checks r.repo_id worktrees st) in
        let end = steps r checks (start r s) in
        let run = steps-IsRun checks (start r s) in
        let same : end.archived ≡ summary.archived =
          ap (λ (m : Summary r). m.archived) (ok-injective h) in
        rw
          (batched_world end.sync
            (set_batch r.cache_codec r.now end.entries r.faults end.sync.cache))
          (run.untouched (same ∙ none_archived))

    -- A sync that succeeds and reports no archive has, since the listing, left git and the state file as
    -- they were.
    sync_listed-IsUntouched :
        (summary : Summary r)
        → (sync_listed r gh worktrees s).0 ≡ ok summary
        → summary.archived ≡ []
        → IsUntouched r faithful s (sync_listed r gh worktrees s).1
    unfolding sync_listed
    sync_listed-IsUntouched summary =
        sync_loaded-IsUntouched (load_state r.state_codec r.faults s.world.disk) summary

  module _ (gh : Gh) (s : SyncWorld G) (g : G) where
    -- The world after git has listed the worktrees.
    abbrev listed_world : SyncWorld G
    listed_world = record s { world = record s.world { git = g } }

    with_failure-ok :
        (o : Result StoreError (Summary r) × SyncWorld G) (summary : Summary r)
        → o.0 ≡ ok summary
        → (with_failure r o).0 ≡ ok summary
    unfolding with_failure
    with_failure-ok (ok m, v) summary h = ap ok (ok-injective h)
    with_failure-ok (err e, v) summary h = cc

    -- Where gh is there, git lists the worktrees and the state can be loaded, a sync succeeds. It has
    -- checked as many worktrees as it may archive; the number that failed is exactly that of those of
    -- them of which gh cannot tell the PR, or the CI of a PR that is neither merged nor closed; and
    -- each archive that it reports is of one of them, with its branch and PR, which gh says is merged
    -- or closed. The failures and the archives are together no more than the checks.
    pub sync-IsAccounted :
        (listing : CommandResult) (rest : List CommandResult) (st : State)
        → r.gh_available ≡ true
        → r.execute (git_worktree_list ∷ []) s.world.git ≡ (ok (listing ∷ rest), g)
        → listing.error ≡ none
        → load_state r.state_codec r.faults s.world.disk ≡ ok st
        → (summary : Summary r) × ((sync r gh s).0 ≡ ok summary)
          × IsAccounted gh (parse_worktree_list_output listing.output) st summary
    unfolding sync with_gh on_results on_listing
    sync-IsAccounted listing rest st available listed fine l =
        let worktrees = parse_worktree_list_output listing.output in
        let summary = loaded_summary gh worktrees listed_world st in
        (
          summary,
          ap (λ (b : Bool). (with_gh r b gh s).0) available
              ∙ ap
                  (λ (p : Result Str (List CommandResult) × G).
                    (on_results r gh p.0 (record s { world = record s.world { git = p.1 } })).0)
                  listed
              ∙ ap (λ (e : Option Str). (on_listing r gh e listing.output listed_world).0) fine
              ∙ with_failure-ok (sync_listed r gh worktrees listed_world) summary
                  (sync_listed-loaded gh worktrees listed_world st l),
          loaded_summary-IsAccounted gh worktrees listed_world st,
        )
