-- ===== src/Cli/Sync/Agent.antt =====
-- cli/sync.go: the flags of `wtp sync`, and the program that the scheduled agent is to run. What the
-- file system says of a path is a parameter.
pub mod Absolute
use wtp.Base.{Bool, true, false, not, ◌&&◌, ◌||◌, Option, none, some, List, [], ◌∷◌, if◌then◌else◌}
use wtp.Base.Result.{Result, ok, err, ◌>>=◌}
use wtp.Base.Text.{Str, str, ◌==◌, has_byte, split_byte}
use wtp.FilePath.{slash, is_abs, join, abs, base}
use wtp.Cli.Sync.{SyncOptions}

pub data AgentError : Type 0 where
  no_self : AgentError
  not_found no_absolute_path : Str → AgentError

-- The flags, `--scheduled` and `--background` among them.
pub record SyncFlags : Type 0 where
  pub all : Bool
  pub install : Bool
  pub uninstall : Bool
  pub scheduled : Bool
  pub background : Bool

pub data SyncRequest : Type 0 where
  exclusive installed uninstalled : SyncRequest
  run : SyncOptions → SyncRequest

-- What `syncCommand` goes on with.
unfoldable pub sync_command : SyncFlags → SyncRequest
sync_command flags =
    if flags.install && flags.uninstall
    then exclusive
    else if flags.install
    then installed
    else if flags.uninstall
    then uninstalled
    else run (record {
      all = flags.all || flags.scheduled;
      if_due = flags.scheduled;
      background = flags.scheduled || flags.background;
    })

-- `slices.Contains(args, x)`
unfoldable pub contains_arg : Str → List Str → Bool
contains_arg x [] = false
contains_arg x (arg ∷ args) = let rest = contains_arg x args in if arg == x then true else rest

unfoldable pub is_background_sync : List Str → Bool
unfolding contains_arg
is_background_sync args =
    contains_arg (str "--scheduled") args || contains_arg (str "--background") args

-- `filepath.SplitList`
unfoldable pub split_list : Str → List Str
split_list path = if path == [] then [] else split_byte b':' path

-- `usable` says which paths are files that may be executed.
unfoldable pub look_path_in : (Str → Bool) → Str → List Str → Option Str
look_path_in usable name [] = none
look_path_in usable name (dir ∷ dirs) =
    let rest = look_path_in usable name dirs in
    if dir == [] || not (is_abs dir)
    then rest
    else if usable (join dir name)
    then some (join dir name)
    else rest

pub found_or : AgentError → Option Str → Result AgentError Str
found_or e none = err e
found_or e (some path) = ok path

unfoldable pub resolve_executable : (Str → Bool) → Option Str → Str → Str → Result AgentError Str
unfolding look_path_in split_list found_or
resolve_executable usable pwd name path_env =
    if has_byte slash name
    then found_or (no_absolute_path name) (abs pwd name)
    else found_or (not_found name) (look_path_in usable name (split_list path_env))

-- The file on the path, if it is the same.
pub preferred : (Str → Str → Bool) → Str → Option Str → Str
preferred same_file exe none = exe
preferred same_file exe (some on_path) = if same_file on_path exe then on_path else exe

module _ (usable : Str → Bool) (same_file : Str → Str → Bool) (pwd : Option Str) where
  unfoldable pub agent_program : List Str → Str → Result AgentError (List Str)
  unfolding resolve_executable preferred look_path_in split_list
  agent_program [] path_env = err no_self
  agent_program (self ∷ args) path_env =
      if self == []
      then err no_self
      else resolve_executable usable pwd self path_env >>= λ exe.
          ok (preferred same_file exe (look_path_in usable (base exe) (split_list path_env)) ∷ args)
