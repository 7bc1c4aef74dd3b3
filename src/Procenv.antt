-- ===== src/Procenv.antt =====
-- internal/procenv, internal/marker and internal/xdg: the environment of an invocation, the marker for
-- the shell hook and the directories of the program.
pub mod Lookup
use mathlib.Core.List.{reverse}
use wtp.Base.{Bool, Option, none, some, List, [], ◌∷◌, ◌++◌, if◌then◌else◌}
use wtp.Base.Result.{Result, ok, err}
use wtp.Base.Text.{Str, str, ◌==◌, cut_prefix}
use wtp.FilePath.{join}

-- The first of some entries that begins with the prefix, without it.
pub first_after : Str → List Str → Str
first_after prefix [] = []
first_after prefix (entry ∷ entries) = elim (cut_prefix prefix entry) [
  | some value ↦ value
  | none ↦ first_after prefix entries
]

-- `Lookup`, whose loop goes through the entries from the last one.
unfoldable pub lookup : List Str → Str → Str
unfolding first_after
lookup environ key = first_after (key ++ str "=") (reverse environ)

pub record Env : Type 0 where
  pub dir : Str
  pub dir_err : Option Str
  pub environ : List Str

pub data NoDir : Type 0 where
  unknown : NoDir
  failed : Str → NoDir

-- `Getwd`
unfoldable pub getwd : Env → Result NoDir Str
getwd env = elim env.dir_err [
  | some e ↦ err (failed e)
  | none ↦ if env.dir == [] then err unknown else ok env.dir
]

unfoldable pub getenv : Env → Str → Str
unfolding lookup
getenv env key = lookup env.environ key

-- `marker.Prefix`
abbrev pub cd_prefix : Str
cd_prefix = str "__wtp_cd:"

-- `marker.Emit`: what it writes, if it writes.
unfoldable pub emit : List Str → Str → Option Str
unfolding lookup
emit environ path =
    if lookup environ (str "__WTP_HOOKED") == str "1"
    then some (cd_prefix ++ (path ++ 10 ∷ []))
    else none

-- The directories below `xdg.DataHome`, `xdg.ConfigHome` and `xdg.CacheHome`.
unfoldable pub wtp_data_dir : Str → Str
wtp_data_dir data_home = join data_home (str "wtp")

unfoldable pub wtp_config_dir : Str → Str
wtp_config_dir config_home = join config_home (str "wtp")

unfoldable pub wtp_cache_dir : Str → Str
wtp_cache_dir cache_home = join cache_home (str "wtp")

unfoldable pub worktree_storage_root : Str → Str
unfolding wtp_data_dir
worktree_storage_root data_home = join (wtp_data_dir data_home) (str "worktrees")
