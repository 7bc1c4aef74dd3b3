-- ===== src/Cli/List.antt =====
-- cli/list.go: which worktrees `wtp list` shows, with which status. Drawing the table is a parameter of
-- the terminal and is left out: what is modelled are the rows.
pub mod Rows
pub mod Archived
pub mod Run
use wtp.Base.{
  ℕ, suc, ◌+◌, ◌-◌, ◌/◌, Bool, true, false, not, ◌&&◌, ◌||◌, Option, none, some, List, [], ◌∷◌,
  ◌++◌, if◌then◌else◌, ltb, leb, nat_eq,
}
use wtp.Base.Dict.{Dict, lookup, insert, in_set}
use wtp.Base.Lists.{length}
use wtp.Base.Text.{Str, str, ◌==◌, has_prefix}
use wtp.Git.{Worktree, no_worktree, detached_keyword}
use wtp.Remote.{RepoIdentifier, storage_path, state_key, parse_state_key, separator}
use wtp.State.{WorktreeState}
use wtp.Cache.{Cache, WorktreeCache, is_expired}
use wtp.Github.{PrInfo, format_pr_state}

-- What a round of a loop finds, before what the others find.
abbrev pub with_found : {A : Type 0} → Option A → List A → List A
with_found none found = found
with_found (some a) found = a ∷ found

-- The branch of an entry of the state that is archived and of this repository, if it has one.
archived_branch : RepoIdentifier → Str → WorktreeState → Option Str
archived_branch repo_id key ws =
    if not ws.archived || not (has_prefix (storage_path repo_id ++ separator) key)
    then none
    else if (parse_state_key key).1 == []
    then none
    else some (parse_state_key key).1

-- "Build set of archived branches from state.json."
unfoldable pub archived_branches : RepoIdentifier → Dict WorktreeState → List Str
unfolding archived_branch
archived_branches repo_id [] = []
archived_branches repo_id ((key, ws) ∷ entries) =
    with_found (archived_branch repo_id key ws) (archived_branches repo_id entries)

-- "Filter out archived worktrees unless --all."
unfoldable pub visible : Bool → List Str → List Worktree → List Worktree
visible show_all archived [] = []
visible show_all archived (wt ∷ worktrees) =
    if not show_all && in_set wt.branch archived
    then visible show_all archived worktrees
    else wt ∷ visible show_all archived worktrees

abbrev pub branches_of : List Worktree → List Str
branches_of [] = []
branches_of (wt ∷ worktrees) = wt.branch ∷ branches_of worktrees

-- A row for an archived entry whose branch is not there.
abbrev pub row_for : List Str → WorktreeState → Option Str → Option Worktree
row_for existing ws none = none
row_for existing ws (some branch) =
    if in_set branch existing
    then none
    else some (record no_worktree { branch = branch; head = ws.commit_sha })

synthetic_row : List Str → RepoIdentifier → Str → WorktreeState → Option Worktree
unfolding archived_branch
synthetic_row existing repo_id key ws = row_for existing ws (archived_branch repo_id key ws)

unfoldable pub synthetic_rows : List Str → RepoIdentifier → Dict WorktreeState → List Worktree
unfolding synthetic_row
synthetic_rows existing repo_id [] = []
synthetic_rows existing repo_id ((key, ws) ∷ entries) =
    with_found (synthetic_row existing repo_id key ws) (synthetic_rows existing repo_id entries)

-- The order of Go strings: byte by byte.
unfoldable pub before : Str → Str → Bool
before s [] = false
before [] (_ ∷ _) = true
before (a ∷ s) (b ∷ t) = let rest = before s t in if ltb a b then true else nat_eq a b && rest

unfoldable pub insert_row : Worktree → List Worktree → List Worktree
unfolding before
insert_row row [] = row ∷ []
insert_row row (other ∷ rows) =
    let rest = insert_row row rows in
    if before other.branch row.branch then other ∷ rest else row ∷ other ∷ rows

-- `sort.Slice` by branch
unfoldable pub sort_rows : List Worktree → List Worktree
unfolding insert_row
sort_rows [] = []
sort_rows (row ∷ rows) = insert_row row (sort_rows rows)

unfoldable pub append_archived_entries :
    List Worktree → Dict WorktreeState → RepoIdentifier → List Worktree
unfolding synthetic_rows sort_rows
append_archived_entries worktrees entries repo_id =
    worktrees ++ sort_rows (synthetic_rows (branches_of worktrees) repo_id entries)

-- The texts for the columns PR and CI.
pub record Prci : Type 0 where
  pub pr_fmt : Str
  pub ci_fmt : Str

-- `prciFromCache`
unfoldable pub prci_from_cache : WorktreeCache → Prci
unfolding format_pr_state
prci_from_cache cached = record {
  pr_fmt =
      if ltb 0 cached.pr_number
      then format_pr_state (
          some (record {
            number = cached.pr_number;
            state = cached.pr_state;
            title = [];
            head_branch = [];
            is_draft = false;
            closed_at = 0;
          }))
      else format_pr_state none;
  ci_fmt = cached.ci_status;
}

-- A row that has no status of its own.
abbrev pub without_status : List Str → Worktree → Bool
without_status archived wt =
    wt.branch == [] || (wt.branch == detached_keyword || (wt.is_main || in_set wt.branch archived))

-- One round of the loop in `loadPRCIFromCache`, on whether something is stale and on the texts.
add_status : ℕ → ℕ → Str → Option WorktreeCache → Bool × Dict Prci → Bool × Dict Prci
add_status now ttl branch none (stale, prci) = (true, prci)
add_status now ttl branch (some entry) (stale, prci) =
    ((if is_expired now entry ttl then true else stale), insert branch (prci_from_cache entry) prci)

unfoldable pub load_statuses :
    ℕ → ℕ → RepoIdentifier → List Str → Cache → List Worktree → Bool × Dict Prci → Bool × Dict Prci
unfolding add_status prci_from_cache
load_statuses now ttl repo_id archived c [] acc = acc
load_statuses now ttl repo_id archived c (wt ∷ worktrees) acc =
    load_statuses now ttl repo_id archived c worktrees (
      if without_status archived wt
      then acc
      else add_status now ttl wt.branch (lookup (state_key repo_id wt.branch) c.worktrees) acc)

-- `loadPRCIFromCache`, with the cache if it could be read.
unfoldable pub load_prci_from_cache :
    ℕ → ℕ → RepoIdentifier → List Str → Option Cache → List Worktree → Bool × Dict Prci
unfolding load_statuses
load_prci_from_cache now ttl repo_id archived none worktrees = (true, [])
load_prci_from_cache now ttl repo_id archived (some c) worktrees =
    load_statuses now ttl repo_id archived c worktrees (false, [])
