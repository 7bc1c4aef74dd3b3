-- ===== src/Hooks/Run/Confined.antt =====
-- Where the copies and links of hooks go.
use wtp.Base.{◌≡◌, ◌⊎◌, Bool, false, List}
use wtp.Base.Lists.{All}
use wtp.Base.Result.{err}
use wtp.Base.Text.{Str, ◌==◌}
use wtp.FilePath.{is_abs}
use wtp.FilePath.Plain.{IsSegment, absolute}
use wtp.FilePath.Relative.{IsBelow}
use wtp.Config.{Hook}
use wtp.Hooks.{HookError, FileSystem}
use wtp.Hooks.{HookWorld}
use wtp.Hooks.Run.{Executed}

-- A path that is written from plain segments and lies in or under the base.
pub record IsInside (base : List Str) (path : Str) : Type 0 where
  pub segments : List Str
  pub plain : All IsSegment segments
  pub below : IsBelow base segments
  pub written : path ≡ absolute segments

-- A source in the repository, a destination in the worktree, and they differ.
pub record IsConfined (root worktree : List Str) (src dst : Str) : Type 0 where
  pub source : IsInside root src
  pub destination : IsInside worktree dst
  pub distinct : (src == dst) ≡ false

module _ {G : Type 0} (fs : FileSystem G) (root worktree : List Str)
    (root_plain : All IsSegment root) (worktree_plain : All IsSegment worktree) (hook : Hook)
    (from_relative : is_abs hook.from ≡ false) (to_relative : is_abs hook.to ≡ false)
    (w : HookWorld G) where
  -- A hook is refused with nothing touched, or acts between two confined paths.
  abbrev IsPlaced : (Str × Str × Bool → HookWorld G → Executed fs) → Executed fs → Type 0
  IsPlaced act run =
      ((e : HookError) × (run ≡ (err e, w)))
      ⊎ ((src : Str) × (dst : Str) × (is_dir : Bool) × IsConfined root worktree src dst
          × (run ≡ act (src, dst, is_dir) w))
