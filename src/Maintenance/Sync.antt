-- ===== src/Maintenance/Sync.antt =====
-- `Runner.Sync` of internal/maintenance/maintenance.go: the listing, the checks, the auto-archives and
-- the refresh of the PR and CI cache.
pub mod Archives
pub mod Account
pub mod Failures
pub mod Success
use wtp.Base.{
  ℕ, zero, suc, ◌+◌, Bool, true, false, not, ◌&&◌, ◌||◌, Option, none, some, List, [], ◌∷◌, ◌++◌,
  if◌then◌else◌, nat_eq,
}
use wtp.Base.Result.{Result, ok, err}
use wtp.Base.Text.{Str, str, ◌==◌, has_prefix}
use wtp.Base.Dict.{Dict, insert}
use wtp.Base.Lists.{length}
use wtp.Git.{Worktree, detached_keyword, parse_worktree_list_output}
use wtp.Remote.{RepoIdentifier, state_key, storage_path}
use wtp.Github.{PrInfo, CiStatus, state_closed, state_merged, format_ci_status}
use wtp.Command.{CommandResult, Executor, git_worktree_list}
use wtp.Store.{Codec, Disk, Faults, StoreError}
use wtp.State.{WorktreeState, State, entry_at, load_state}
use wtp.State.Archiving.{World, perform_archive}
use wtp.Maintenance.Checks.{BranchCheck, Gh, collect_checks, is_done, fetch_all}
use wtp.Cache
use wtp.Cache.{Cache, WorktreeCache, set_batch}

pub record Archived : Type 0 where
  pub repo : Str
  pub branch : Str
  pub pr_number : ℕ
  pub pr_state : Str

-- What a sync prints to the warning stream besides the warnings of `PerformArchive`.
pub data Note : Type 0 where
  pr_unknown ci_unknown dirty_unknown : Str → Str → Note
  has_changes in_use : Str → Note
  archive_failed : Str → StoreError → Note
  cache_failed : StoreError → Note

unfoldable pub path_in_use : Str → List Str → Bool
path_in_use worktree_path [] = false
path_in_use worktree_path (p ∷ busy) =
    (p == worktree_path || has_prefix (worktree_path ++ str "/") p)
    || path_in_use worktree_path busy

pr_fields : Option PrInfo → WorktreeCache → WorktreeCache
pr_fields none entry = entry
pr_fields (some pr) entry = record entry {
  pr_number = pr.number;
  pr_state = pr.state;
  pr_title = pr.title;
}

unfoldable pub cache_entry : Option PrInfo → Option CiStatus → WorktreeCache
unfolding pr_fields format_ci_status
cache_entry pr ci = pr_fields pr (record {
  pr_number = 0;
  pr_state = [];
  pr_title = [];
  ci_status = format_ci_status ci;
  updated_at = 0;
})

-- The worktree, the two stores and what was printed.
pub record SyncWorld (G : Type 0) : Type 0 where
  pub world : World G
  pub cache : Disk
  pub notes : List Note

abbrev pub noted : {G : Type 0} → Note → SyncWorld G → SyncWorld G
noted note s = record s { notes = s.notes ++ note ∷ [] }

-- What a sync of one repository is given. `busy` are the directories of running processes.
pub record Runner (G : Type 0) : Type 0 where
  pub repo_id : RepoIdentifier
  pub state_codec : Codec State
  pub cache_codec : Codec Cache
  pub faults : Faults
  pub execute : Executor G
  pub is_worktree_dirty : Str → G → Result Str Bool
  pub busy : List Str
  pub now : ℕ
  pub gh_available : Bool

-- `no_results` is where the code would panic: an executor that gives no result for a command.
pub data SyncFailure : Type 0 where
  gh_unavailable no_results : SyncFailure
  not_listed : Str → SyncFailure
  list_refused : Str → Str → SyncFailure
  not_loaded : StoreError → SyncFailure

module _ {G : Type 0} (r : Runner G) where
  abbrev pub archive_state : Worktree → PrInfo → WorktreeState
  archive_state wt pr = record {
    archived = true;
    archived_at = r.now;
    pr_closed_at = if nat_eq pr.closed_at 0 then r.now else pr.closed_at;
    commit_sha = wt.head;
    branch = wt.branch;
    worktree_path = wt.path;
    suppress_auto_archive = false;
  }

  abbrev Attempt : Type 0
  Attempt = Option Archived × SyncWorld G

  archived_as : BranchCheck → PrInfo → SyncWorld G → Result StoreError Bool × World G → Attempt
  archived_as c pr s (err e, w) =
      (none, noted (archive_failed c.wt.branch e) (record s { world = w }))
  archived_as c pr s (ok _, w) = (
    some (record {
      repo = storage_path r.repo_id;
      branch = c.wt.branch;
      pr_number = pr.number;
      pr_state = pr.state;
    }),
    record s { world = w; cache = (Cache.delete r.cache_codec c.key r.faults s.cache).1 },
  )

  try_clean : BranchCheck → PrInfo → SyncWorld G → Result Str Bool → Attempt
  unfolding archived_as
  try_clean c pr s (err e) = (none, noted (dirty_unknown c.wt.branch e) s)
  try_clean c pr s (ok dirty) =
      if dirty
      then (none, noted (has_changes c.wt.branch) s)
      else if path_in_use c.wt.path r.busy
      then (none, noted (in_use c.wt.branch) s)
      else archived_as c pr s
          (perform_archive r.execute r.state_codec r.faults c.key (archive_state c.wt pr) s.world)

  -- `tryArchive`
  unfoldable pub try_archive : BranchCheck → PrInfo → SyncWorld G → Attempt
  unfolding try_clean
  try_archive c pr s = try_clean c pr s (r.is_worktree_dirty c.wt.path s.world.git)

  attempt : BranchCheck → Option PrInfo → SyncWorld G → Attempt
  unfolding is_done try_archive
  attempt c none s = (none, s)
  attempt c (some pr) s = if is_done (some pr) then try_archive c pr s else (none, s)

  -- The variables of the loop over the checks.
  pub record Loop : Type 0 where
    pub sync : SyncWorld G
    pub archived : List Archived
    pub failed : ℕ
    pub entries : Dict WorktreeCache

  refresh : BranchCheck → Option Str → Loop → Loop
  unfolding cache_entry
  refresh c (some e) l = record l {
    sync = noted (ci_unknown c.wt.branch e) l.sync;
    failed = l.failed + 1;
  }
  refresh c none l = record l { entries = insert c.key (cache_entry c.pr c.ci) l.entries }

  attempted : BranchCheck → Loop → Attempt → Loop
  unfolding refresh
  attempted c l (some a, s) = record l { sync = s; archived = l.archived ++ a ∷ [] }
  attempted c l (none, s) = refresh c c.ci_error (record l { sync = s })

  step_with : BranchCheck → Option Str → Loop → Loop
  unfolding attempted attempt
  step_with c (some e) l = record l {
    sync = noted (pr_unknown c.wt.branch e) l.sync;
    failed = l.failed + 1;
  }
  step_with c none l = attempted c l (attempt c c.pr l.sync)

  unfoldable pub step : BranchCheck → Loop → Loop
  unfolding step_with
  step c l = step_with c c.error l

  unfoldable pub steps : List BranchCheck → Loop → Loop
  unfolding step
  steps [] l = l
  steps (c ∷ cs) l = steps cs (step c l)

  pub record Summary : Type 0 where
    pub checked : ℕ
    pub archived : List Archived
    pub failed : ℕ

  batched : SyncWorld G → Result StoreError (Unit {0}) × Disk → SyncWorld G
  batched s (err e, disk) = noted (cache_failed e) (record s { cache = disk })
  batched s (ok _, disk) = record s { cache = disk }

  finished : ℕ → Loop → Summary × SyncWorld G
  unfolding batched
  finished checked l = (
    record { checked = checked; archived = l.archived; failed = l.failed },
    batched l.sync (set_batch r.cache_codec r.now l.entries r.faults l.sync.cache),
  )

  abbrev pub start : SyncWorld G → Loop
  start s = record { sync = s; archived = []; failed = 0; entries = [] }

  sync_loaded :
      Gh
      → List Worktree
      → SyncWorld G
      → Result StoreError State
      → Result StoreError Summary × SyncWorld G
  unfolding steps finished collect_checks fetch_all
  sync_loaded gh worktrees s (err e) = (err e, s)
  sync_loaded gh worktrees s (ok st) =
      let checks = fetch_all gh (collect_checks r.repo_id worktrees st) in
      let (summary, s') = finished (length checks) (steps checks (start s)) in (ok summary, s')

  -- What follows the listing.
  unfoldable pub sync_listed :
      Gh → List Worktree → SyncWorld G → Result StoreError Summary × SyncWorld G
  unfolding sync_loaded
  sync_listed gh worktrees s =
      sync_loaded gh worktrees s (load_state r.state_codec r.faults s.world.disk)

  abbrev Synced : Type 0
  Synced = Result SyncFailure Summary × SyncWorld G

  with_failure : Result StoreError Summary × SyncWorld G → Synced
  with_failure (err e, s) = (err (not_loaded e), s)
  with_failure (ok summary, s) = (ok summary, s)

  on_listing : Gh → Option Str → Str → SyncWorld G → Synced
  unfolding with_failure sync_listed
  on_listing gh (some e) output s = (err (list_refused e output), s)
  on_listing gh none output s = with_failure (sync_listed gh (parse_worktree_list_output output) s)

  on_results : Gh → Result Str (List CommandResult) → SyncWorld G → Synced
  unfolding on_listing
  on_results gh (err e) s = (err (not_listed e), s)
  on_results gh (ok []) s = (err no_results, s)
  on_results gh (ok (listing ∷ rest)) s = on_listing gh listing.error listing.output s

  with_gh : Bool → Gh → SyncWorld G → Synced
  unfolding on_results
  with_gh false gh s = (err gh_unavailable, s)
  with_gh true gh s =
      let (result, g) = r.execute (git_worktree_list ∷ []) s.world.git in
      on_results gh result (record s { world = record s.world { git = g } })

  -- `Runner.Sync`
  unfoldable pub sync : Gh → SyncWorld G → Synced
  unfolding with_gh
  sync gh s = with_gh r.gh_available gh s
