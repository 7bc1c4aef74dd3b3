-- ===== src/Tests/Hooking.antt =====
-- Hooks and their configuration at concrete inputs.
use wtp.Base.{if◌then◌else◌, ◌≡◌, refl, true, false, none, some, List, [], ◌∷◌}
use wtp.Base.Lists.{All}
use wtp.Base.Text.{Str, str, ◌==◌, has_byte}
use wtp.FilePath.{is_abs}
use wtp.FilePath.Plain.{IsSegment}
use wtp.Config.{Hook, contents, apply_defaults, load_config, validate}
use wtp.Config.Valid.{IsRunnable, load_config-IsRunnable}
use wtp.Hooks.{FileSystem, HookWorld, absent, present}
use wtp.Tests.HookCodec.{hook_codec}
use wtp.Tests.Commands.{Log}

-- A copy without a destination, a copy that leads out of the worktree, and a command.
abbrev env_hook : Hook
env_hook = record {
  hook_type = str "copy";
  from = str ".env";
  to = [];
  command = [];
  env = [];
  work_dir = [];
}

abbrev stray_hook : Hook
stray_hook = record env_hook { to = str "../../etc/x" }

abbrev pub command_hook : Hook
command_hook = record {
  hook_type = str "command";
  from = [];
  to = [];
  command = str "make";
  env = (str "CI", str "1") ∷ [];
  work_dir = [];
}

abbrev two_hooks : List Hook
two_hooks = env_hook ∷ command_hook ∷ []

-- The bytes of the hooks with their defaults.
abbrev saved : Str
saved = elim (hook_codec.encode (record env_hook { to = str ".env" } ∷ command_hook ∷ [])) [
  | none ↦ []
  | some bytes ↦ bytes
]

load_config-IsRunnable_example :
    All IsRunnable (apply_defaults two_hooks)
    × (apply_defaults (apply_defaults two_hooks) ≡ apply_defaults two_hooks)
unfolding load_config validate apply_defaults ◌==◌ is_abs
load_config-IsRunnable_example =
    load_config-IsRunnable hook_codec (contents saved) (apply_defaults two_hooks) refl

-- Files that keep a log. Only `/r/.env` is there.
abbrev pub log_files : FileSystem Log
log_files = record {
  stat = λ path log. if path == str "/r/.env" then present false else absent;
  lstat = λ path log. absent;
  same_file = λ src dst log. false;
  make_dirs = λ path log. (true, (str "mkdir" ∷ path ∷ []) ∷ log);
  copy_dir = λ src dst log. (none, (str "cp -r" ∷ src ∷ dst ∷ []) ∷ log);
  copy_file = λ src dst log. (none, (str "cp" ∷ src ∷ dst ∷ []) ∷ log);
  symlink = λ src dst log. (none, (str "ln" ∷ src ∷ dst ∷ []) ∷ log);
  run_shell = λ command dir env log. (none, (command ∷ dir ∷ env) ∷ log);
  can_print = true;
}

abbrev no_lines : HookWorld Log
no_lines = record { files = []; printed = [] }

pub r-IsSegment : All IsSegment (str "r" ∷ [])
unfolding ◌==◌ has_byte
r-IsSegment = (record { given = refl; no_dot = refl; no_dots = refl; no_slash = refl }, tt)
