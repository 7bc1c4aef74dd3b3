-- ===== src/Hooks/Run/Order.antt =====
-- Hooks run in order, and the first that fails is the last.
use wtp.Base.{ℕ, ◌+◌, ◌≡◌, refl, sym, ap, ◌∙◌, List, [], ◌∷◌, ◌++◌, arith}
use wtp.Base.Lists.{length}
use wtp.Base.Result.{ok, err}
use wtp.Base.Text.{Str}
use wtp.Config.{Hook}
use wtp.Hooks.{FileSystem, HookWorld, running, completed}
use wtp.Hooks.Run.{Executed, and_then, print, execute_hook, execute_from}

module _ {G : Type 0} (fs : FileSystem G) where
  and_then_assoc :
      (r : Executed fs) (f g : HookWorld G → Executed fs)
      → and_then fs (and_then fs r f) g ≡ and_then fs r (λ w. and_then fs (f w) g)
  unfolding and_then
  and_then_assoc (err e, w) f g = refl
  and_then_assoc (ok _, w) f g = refl

  and_then_ext :
      (r : Executed fs) (f g : HookWorld G → Executed fs)
      → ((w : HookWorld G) → f w ≡ g w)
      → and_then fs r f ≡ and_then fs r g
  unfolding and_then
  and_then_ext (err e, w) f g h = refl
  and_then_ext (ok _, w) f g h = h w

  -- To run the hooks of one list after those of another is to run the first list and then, if it
  -- did not fail, the second, with the numbers going on. If it fails, no hook of the second runs.
  execute_from-append :
      (repo_root : Str) (environ : List Str) (worktree_path : Str) (total : ℕ)
      (hooks others : List Hook) (i : ℕ) (w : HookWorld G)
      → execute_from fs repo_root environ worktree_path i total (hooks ++ others) w
        ≡ and_then fs
            (execute_from fs repo_root environ worktree_path i total hooks w)
            (execute_from fs repo_root environ worktree_path (i + length hooks) total others)
  unfolding execute_from
  execute_from-append repo_root environ worktree_path total [] others i w =
      ap (λ (k : ℕ). execute_from fs repo_root environ worktree_path k total others w) (omega arith)
  execute_from-append repo_root environ worktree_path total (hook ∷ hooks) others i w =
      let rest = λ (k : ℕ). execute_from fs repo_root environ worktree_path k total others in
      let next = λ (w3 : HookWorld G).
        execute_from-append repo_root environ worktree_path total hooks others (i + 1) w3
        ∙ ap
            (λ (k : ℕ).
              and_then fs (execute_from fs repo_root environ worktree_path (i + 1) total hooks w3)
                (rest k))
            (omega arith) in
      let r = rest (i + length (hook ∷ hooks)) in
      and_then_ext (print fs (running (i + 1) total) w) _ _ (λ w1.
        and_then_ext (execute_hook fs repo_root environ worktree_path hook w1) _ _ (λ w2.
          and_then_ext (print fs (completed (i + 1)) w2) _ _ next
          ∙ sym (and_then_assoc (print fs (completed (i + 1)) w2) _ r))
        ∙ sym (and_then_assoc (execute_hook fs repo_root environ worktree_path hook w1) _ r))
      ∙ sym (and_then_assoc (print fs (running (i + 1) total) w) _ r)
