-- ===== src/Cli/List/Run.antt =====
-- `listCommand` of cli/list.go.
use wtp.Base.{ℕ, Bool, true, false, not, ◌&&◌, Option, none, some, List, [], ◌∷◌, if◌then◌else◌}
use wtp.Base.Dict.{Dict}
use wtp.Base.Lists.{no_items}
use wtp.Base.Result.{Result, ok, err}
use wtp.Base.Text.{Str, str, ◌==◌}
use wtp.Procenv.{lookup}
use wtp.Remote.{RepoIdentifier, parse, storage_path}
use wtp.Command.{CommandResult, Executor, git_worktree_list}
use wtp.Git.{Worktree, parse_worktree_list_output}
use wtp.Git.Branches.{Git}
use wtp.Git.Repository.{
  Repository, RepositoryError, new_repository, get_main_worktree_path, get_remote_url,
}
use wtp.State.{State}
use wtp.Cache.{Cache}
use wtp.Cli.List.{Prci, archived_branches, visible, append_archived_entries, load_prci_from_cache}
use wtp.Cli.List.Rows.{ListRow, quiet_names, build_list_rows}

pub data ListError : Type 0 where
  no_directory not_in_repository panicked : ListError
  main_path_unknown : RepositoryError → ListError
  list_failed : Str → ListError

-- What is printed. The flag of a table says whether it has the columns for PR and CI.
pub data ListOutput : Type 0 where
  nothing no_worktrees_found : ListOutput
  names : List Str → ListOutput
  rows : Bool → List ListRow → ListOutput

pub record ListOptions : Type 0 where
  pub quiet : Bool
  pub show_all : Bool
  pub no_sync : Bool

-- `loaded` and `cached` are the state, empty if it could not be read, and the cache if it could be;
-- `claim_refresh` and `spawn` are `maintenance.ClaimRefresh` and the start of a detached `wtp sync`,
-- `hint` the hint that gh is missing, `parse_bool` is `strconv.ParseBool`.
pub record ListAround (G : Type 0) : Type 0 where
  pub execute : Executor G
  pub git_in : G → Str → Git
  pub url_parse : Str → Option (Str × Str)
  pub getwd : Option Str
  pub pwd : Option Str
  pub environ : List Str
  pub parse_bool : Str → Option Bool
  pub loaded : G → State
  pub cached : G → Option Cache
  pub now : G → ℕ
  pub cache_ttl : G → ℕ
  pub gh_available : Bool
  pub claim_refresh : Str → ℕ → G → Bool × G
  pub spawn : G → G
  pub hint : G → G

module _ {G : Type 0} (around : ListAround G) where
  -- `backgroundSyncDisabled`
  unfoldable pub background_sync_disabled : Bool
  background_sync_disabled =
      let value = lookup around.environ (str "WTP_NO_BACKGROUND_SYNC") in
      if value == []
      then false
      else elim (around.parse_bool value) [ none ↦ true | some disabled ↦ disabled ]

  url_of : Result RepositoryError Str → Option RepoIdentifier
  url_of (err e) = none
  url_of (ok url) = elim (parse around.url_parse url) [ err e ↦ none | ok repo_id ↦ some repo_id ]

  -- `listGetRemoteURL`, and the identifier that the URL is parsed as.
  repo_of : Str → G → Option RepoIdentifier
  unfolding url_of
  repo_of main_path g = elim (new_repository (around.git_in g) main_path) [
    | err e ↦ none
    | ok repo ↦ url_of (get_remote_url (around.git_in g repo.path) (str "origin"))
  ]

  archived_of : Option RepoIdentifier → G → List Str
  archived_of none g = []
  archived_of (some repo_id) g = archived_branches repo_id (around.loaded g).worktrees

  shown_of : ListOptions → Option RepoIdentifier → List Worktree → G → List Worktree
  unfolding archived_of
  shown_of opts none worktrees g = visible opts.show_all [] worktrees
  shown_of opts (some repo_id) worktrees g =
      let kept = visible opts.show_all (archived_of (some repo_id) g) worktrees in
      if opts.show_all
      then append_archived_entries kept (around.loaded g).worktrees repo_id
      else kept

  -- "Stale and not disabled: claim a refresh, and start it if the claim is granted."
  unfoldable pub refreshed : ListOptions → Str → Bool → G → G
  unfolding background_sync_disabled
  refreshed opts repo_key stale g =
      if stale && (not opts.no_sync && not background_sync_disabled)
      then (let (claimed, g') = around.claim_refresh repo_key (around.cache_ttl g) g in
          if claimed then around.spawn g' else g')
      else g

  statuses : ListOptions → Option RepoIdentifier → List Worktree → G → Dict Prci × G
  unfolding archived_of refreshed
  statuses opts none worktrees g =
      ([], if not around.gh_available && not opts.quiet then around.hint g else g)
  statuses opts (some repo_id) worktrees g =
      if around.gh_available && not opts.quiet
      then (let (stale, prci) =
            load_prci_from_cache (around.now g) (around.cache_ttl g) repo_id
              (archived_of (some repo_id) g) (around.cached g) worktrees in
          (prci, refreshed opts (storage_path repo_id) stale g))
      else ([], if not around.gh_available && not opts.quiet then around.hint g else g)

  -- `displayWorktreesTable`, up to drawing
  table : List ListRow → ListOutput
  table listed = if no_items listed then nothing else rows around.gh_available listed

  display : ListOptions → Str → Option RepoIdentifier → List Worktree → G → ListOutput × G
  unfolding shown_of statuses table archived_of
  display opts cwd repo worktrees g =
      let shown = shown_of opts repo worktrees g in
      let (prci, g') = statuses opts repo shown g in
      (
        if opts.quiet
            then names (quiet_names shown)
            else table (build_list_rows cwd around.gh_available prci (archived_of repo g) shown),
        g',
      )

  list_worktrees : ListOptions → Str → Str → List Worktree → G → Result ListError ListOutput × G
  unfolding display repo_of
  list_worktrees opts cwd main_path [] g =
      (ok (if opts.quiet then nothing else no_worktrees_found), g)
  list_worktrees opts cwd main_path (wt ∷ worktrees) g =
      let (output, g') = display opts cwd (repo_of main_path g) (wt ∷ worktrees) g in
      (ok output, g')

  listed :
      ListOptions
      → Str
      → Str
      → Result Str (List CommandResult)
      → G
      → Result ListError ListOutput × G
  unfolding list_worktrees
  listed opts cwd main_path (err e) g = (err (list_failed e), g)
  listed opts cwd main_path (ok []) g = (err panicked, g)
  listed opts cwd main_path (ok (r ∷ rest)) g =
      list_worktrees opts cwd main_path (parse_worktree_list_output r.output) g

  unfoldable pub list_command_with_command_executor :
      ListOptions → Str → G → Result ListError ListOutput × G
  unfolding listed
  list_command_with_command_executor opts main_path g = elim around.getwd [
    | none ↦ (err no_directory, g)
    | some cwd ↦
        let (result, g') = around.execute (git_worktree_list ∷ []) g in
        listed opts cwd main_path result g'
  ]

  from_repository :
      ListOptions → Result RepositoryError Repository → G → Result ListError ListOutput × G
  unfolding list_command_with_command_executor
  from_repository opts (err e) g = (err not_in_repository, g)
  from_repository opts (ok repo) g =
      elim (get_main_worktree_path (around.git_in g repo.path) around.pwd repo) [
        | err e ↦ (err (main_path_unknown e), g)
        | ok main_path ↦ list_command_with_command_executor opts main_path g
      ]

  -- `listCommand`
  unfoldable pub list_command : ListOptions → G → Result ListError ListOutput × G
  unfolding from_repository
  list_command opts g = elim around.getwd [
    | none ↦ (err no_directory, g)
    | some cwd ↦ from_repository opts (new_repository (around.git_in g) cwd) g
  ]
