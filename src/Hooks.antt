-- ===== src/Hooks.antt =====
-- internal/hooks/executor.go: the post-create hooks of a worktree. What lies behind os, os/exec and
-- the copying of files and directories is a parameter.
pub mod Run
use wtp.Base.{ℕ, suc, ◌+◌, Bool, true, false, not, ◌&&◌, Option, none, some, List, [], ◌∷◌, ◌++◌}
use wtp.Base.{if◌then◌else◌}
use wtp.Base.Lists.{length}
use wtp.Base.Result.{Result, ok, err, ◌>>=◌}
use wtp.Base.Text.{Str, str, ◌==◌, has_prefix}
use wtp.Base.Dict.{Dict}
use wtp.FilePath.{is_abs, join, clean, dir, rel, ensure_within_base}
use wtp.Config.{Hook, hook_type_copy, hook_type_command, hook_type_symlink}

pub data HookError : Type 0 where
  escapes_base : Str → Str → HookError
  source_missing destination_exists not_inspected dir_not_made print_failed : HookError
  same_paths : Str → Str → HookError
  not_copied not_linked command_failed unknown_type : Str → HookError

-- `os.Stat` and `os.Lstat`: nothing there, no answer, or whether it is a directory.
pub data Stat : Type 0 where
  absent unanswered : Stat
  present : Bool → Stat

-- What is printed. A hook is numbered from 1.
pub data Line : Type 0 where
  running : ℕ → ℕ → Line
  copying symlinking : Str → Str → Line
  command_line : Str → Line
  completed : ℕ → Line

-- `same_file` is `os.SameFile` at what two paths lead to. An error is its text.
pub record FileSystem (G : Type 0) : Type 0 where
  pub stat : Str → G → Stat
  pub lstat : Str → G → Stat
  pub same_file : Str → Str → G → Bool
  pub make_dirs : Str → G → Bool × G
  pub copy_dir : Str → Str → G → Option Str × G
  pub copy_file : Str → Str → G → Option Str × G
  pub symlink : Str → Str → G → Option Str × G
  pub run_shell : Str → Str → List Str → G → Option Str × G
  pub can_print : Bool

pub record HookWorld (G : Type 0) : Type 0 where
  pub files : G
  pub printed : List Line

-- A path of a hook, seen from `base` if it is relative, and then not out of it.
unfoldable pub resolve : Str → Str → Result HookError Str
unfolding ensure_within_base
resolve base path =
    if is_abs path
    then ok (clean path)
    else if ensure_within_base base (clean (join base path))
    then ok (clean (join base path))
    else err (escapes_base (clean (join base path)) base)

-- `filepath.Rel` with its error passed over.
abbrev shown : Str → Str → Str
shown base path = elim (rel base path) [ none ↦ [] | some r ↦ r ]

unfoldable pub ensure_distinct_paths :
    {G : Type 0} → FileSystem G → Str → Str → G → Result HookError (Unit {0})
ensure_distinct_paths fs src dst g =
    if src == dst then err (same_paths src dst) else elim (fs.stat dst g) [
      | absent ↦ ok tt
      | unanswered ↦ err not_inspected
      | present is_dir ↦ if fs.same_file src dst g then err (same_paths src dst) else ok tt
    ]

module _ {G : Type 0} (fs : FileSystem G) where
  -- Whether a source is there, and a directory.
  source_of : Stat → Result HookError Bool
  source_of absent = err source_missing
  source_of unanswered = err source_missing
  source_of (present is_dir) = ok is_dir

  -- The source and the destination of a copy or a link, and whether the source is a directory.
  unfoldable pub checked_paths : Str → Str → Hook → G → Result HookError (Str × Str × Bool)
  unfolding resolve source_of ensure_distinct_paths
  checked_paths repo_root worktree_path hook g = resolve repo_root hook.from >>= λ src.
      (resolve worktree_path hook.to >>= λ dst.
      (source_of (fs.stat src g) >>= λ is_dir.
      (ensure_distinct_paths fs src dst g >>= λ _. ok (src, dst, is_dir))))
