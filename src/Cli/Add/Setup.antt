-- ===== src/Cli/Add/Setup.antt =====
-- `addCommand` and `setupRepoAndConfig` of cli/add.go: the repository and the configuration that `wtp
-- add` starts from.
use wtp.Base.{Option, none, some, List, [], ◌∷◌, ◌++◌, if◌then◌else◌}
use wtp.Base.Result.{Result, ok, err}
use wtp.Base.Text.{Str, str}
use wtp.Store.{Codec}
use wtp.Config.{Hook, ConfigFile, ConfigError, load_config}
use wtp.Git.Repository.{Repository, new_repository, get_main_worktree_path, get_remote_url}
use wtp.Cli.Add.{
  AddInput, AddError, no_directory, not_in_repository, config_unloaded, validate_add_input,
}
use wtp.Cli.Add.Create.{AddWorld, AddAround, Added, add_command_with_command_executor}

-- `config_file` is what lies at the path of the configuration below a root; `ensure_global_config`
-- may fail, with a warning.
pub record Setup (G : Type 0) : Type 0 where
  pub getwd : Option Str
  pub ensure_global_config : G → Option Str × G
  pub config_file : Str → G → ConfigFile

module _ {G : Type 0} (around : AddAround G) (setup : Setup G) (yaml : Codec (List Hook)) where
  main_path_of : Repository → AddWorld G → Str
  main_path_of repo w =
      elim (get_main_worktree_path (around.git_in w.git repo.path) around.pwd repo) [
        | err e ↦ repo.path
        | ok path ↦ path
      ]

  global_warning : Str → Str
  global_warning e = str "warning: failed to create global config: " ++ (e ++ 10 ∷ [])

  -- The warning is printed if it can be.
  ensured : Option Str × G → AddWorld G → AddWorld G
  unfolding global_warning
  ensured (none, g) w = record w { git = g }
  ensured (some e, g) w = record w {
    git = g;
    marked = w.marked ++ (if around.can_mark then global_warning e ∷ [] else []);
  }

  -- The function `repo.GetRemoteURL`, its error passed over.
  url_of : Repository → G → Str → Option Str
  url_of repo g name = elim (get_remote_url (around.git_in g repo.path) name) [
    | err e ↦ none
    | ok url ↦ some url
  ]

  loaded :
      AddInput
      → Repository
      → Str
      → Result ConfigError (List Hook)
      → AddWorld G
      → Added around AddError
  unfolding url_of
  loaded input repo main_path (err e) w =
      (err (config_unloaded (main_path ++ str "/.wtp.yml") e), w)
  loaded input repo main_path (ok hooks) w =
      add_command_with_command_executor (record around { get_remote_url = url_of repo }) input hooks
        main_path w

  in_repository : AddInput → Option Repository → AddWorld G → Added around AddError
  unfolding main_path_of ensured loaded
  in_repository input none w = (err not_in_repository, w)
  in_repository input (some repo) w =
      let main_path = main_path_of repo w in
      let w' = ensured (setup.ensure_global_config w.git) w in
      loaded input repo main_path (load_config yaml (setup.config_file main_path w'.git)) w'

  from_directory : AddInput → Option Str → AddWorld G → Added around AddError
  unfolding in_repository
  from_directory input none w = (err no_directory, w)
  from_directory input (some cwd) w =
      in_repository input
        (elim (new_repository (around.git_in w.git) cwd) [ err e ↦ none | ok repo ↦ some repo ]) w

  -- `addCommand`
  unfoldable pub add_command : AddInput → AddWorld G → Added around AddError
  unfolding from_directory validate_add_input
  add_command input w = elim (validate_add_input input) [
    | err e ↦ (err e, w)
    | ok _ ↦ from_directory input setup.getwd w
  ]
