-- ===== src/Config.antt =====
-- internal/config/config.go: the hooks of a repository, their defaults and their validation. YAML is
-- a codec of the list of hooks; that its reader passes over the old fields is part of `decode`.
pub mod Valid
pub mod Global
use wtp.Base.{Bool, true, false, not, ◌&&◌, ◌||◌, Option, none, some, List, [], ◌∷◌, if◌then◌else◌}
use wtp.Base.Result.{Result, ok, err, ◌>>=◌}
use wtp.Base.Text.{Str, str, ◌==◌}
use wtp.Base.Dict.{Dict}
use wtp.FilePath.{is_abs}
use wtp.Store.{Codec}

pub record Hook : Type 0 where
  pub hook_type : Str
  pub from : Str
  pub to : Str
  pub command : Str
  pub env : Dict Str
  pub work_dir : Str

abbrev pub hook_type_copy : Str
hook_type_copy = str "copy"

abbrev pub hook_type_command : Str
hook_type_command = str "command"

abbrev pub hook_type_symlink : Str
hook_type_symlink = str "symlink"

pub data ConfigError : Type 0 where
  from_required to_required command_not_allowed command_required paths_not_allowed : ConfigError
  both_required invalid_type unresolved_root not_read not_parsed not_marshaled not_written :
      ConfigError

-- "Only default to=from for relative paths."
unfoldable pub apply_hook_defaults : Hook → Hook
apply_hook_defaults h =
    if not (h.hook_type == hook_type_copy)
    then h
    else if not (h.to == []) || h.from == []
    then h
    else if is_abs h.from
    then h
    else record h { to = h.from }

validate_copy : Hook → Result ConfigError (Unit {0})
validate_copy h =
    if h.from == []
    then err from_required
    else if h.to == [] && is_abs h.from
    then err to_required
    else if not (h.command == [])
    then err command_not_allowed
    else ok tt

validate_command : Hook → Result ConfigError (Unit {0})
validate_command h =
    if h.command == []
    then err command_required
    else if not (h.from == []) || not (h.to == [])
    then err paths_not_allowed
    else ok tt

validate_symlink : Hook → Result ConfigError (Unit {0})
validate_symlink h =
    if h.from == [] || h.to == []
    then err both_required
    else if not (h.command == [])
    then err command_not_allowed
    else ok tt

unfoldable pub validate_hook : Hook → Result ConfigError (Unit {0})
unfolding validate_copy validate_command validate_symlink
validate_hook h =
    if h.hook_type == hook_type_copy
    then validate_copy h
    else if h.hook_type == hook_type_command
    then validate_command h
    else if h.hook_type == hook_type_symlink
    then validate_symlink h
    else err invalid_type

unfoldable pub apply_defaults : List Hook → List Hook
unfolding apply_hook_defaults
apply_defaults [] = []
apply_defaults (h ∷ hooks) = apply_hook_defaults h ∷ apply_defaults hooks

unfoldable pub validate : List Hook → Result ConfigError (Unit {0})
unfolding validate_hook
validate [] = ok tt
validate (h ∷ hooks) = let rest = validate hooks in (validate_hook h >>= λ _. rest)

-- What `LoadConfig` finds at the path of the file.
pub data ConfigFile : Type 0 where
  missing unreadable : ConfigFile
  contents : Str → ConfigFile

module _ (yaml : Codec (List Hook)) where
  validated : List Hook → Result ConfigError (List Hook)
  unfolding validate
  validated hooks = validate hooks >>= λ _. ok hooks

  parsed : Option (List Hook) → Result ConfigError (List Hook)
  unfolding validated apply_defaults
  parsed none = err not_parsed
  parsed (some hooks) = validated (apply_defaults hooks)

  -- `LoadConfig` behind the resolution of the root: a file that is missing has no hooks.
  unfoldable pub load_config : ConfigFile → Result ConfigError (List Hook)
  unfolding parsed
  load_config missing = ok []
  load_config unreadable = err not_read
  load_config (contents bytes) = parsed (yaml.decode bytes)

  marshaled : Option Str → Result ConfigError Str
  marshaled none = err not_marshaled
  marshaled (some bytes) = ok bytes

  -- `SaveConfig`: the bytes that it writes.
  unfoldable pub save_config : List Hook → Result ConfigError Str
  unfolding validate apply_defaults marshaled
  save_config hooks =
      validate (apply_defaults hooks) >>= λ _. marshaled (yaml.encode (apply_defaults hooks))
