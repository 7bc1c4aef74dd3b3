-- ===== src/Git/Repository/MainPath.antt =====
-- `GetMainWorktreePath` on what git prints in the main worktree and in a linked one.
use mathlib.Core.List.{reverse, reverse-append, append_assoc}
use wtp.Base.{◌≡◌, refl, sym, ap, ◌∙◌, Bool, true, false, Option, some, List, [], ◌∷◌, ◌++◌}
use wtp.Base.{if◌then◌else◌}
use wtp.Base.Result.{ok}
use wtp.Base.Text.{Str, str, ◌==◌, has_byte, has_prefix, has_suffix, trim_space}
use wtp.Base.Text.Laws.{cut_prefix-append, has_byte-append}
use wtp.Base.Text.Trim.{IsWord, ends_dark, trim_space_line}
use wtp.Base.Lists.{All}
use wtp.FilePath.{is_abs, slash, dot, dir, abs, joined}
use wtp.FilePath.Plain.{IsSegment, absolute, absolute-is_abs, clean-absolute}
use wtp.FilePath.Parent.{dir-absolute, join-dot, joined-append}
use wtp.Git.{newline}
use wtp.Git.Branches.{Git, succeeded}
use wtp.Git.Repository.{
  Repository, common_dir, repository_of, get_main_worktree_path, output_or, absolute_or,
}

abbrev git_dir : Str
git_dir = str ".git"

pub has_suffix-append : (p s : Str) → has_suffix p (s ++ p) ≡ true
unfolding has_suffix has_prefix
has_suffix-append p s = rw (reverse-append s p, cut_prefix-append (reverse p) (reverse s)) refl

abs-absolute :
    (pwd : Option Str) (xs : List Str)
    → All IsSegment xs
    → abs pwd (absolute xs) ≡ some (absolute xs)
unfolding abs absolute
abs-absolute pwd xs h = rw (absolute-is_abs xs) (ap some (clean-absolute xs h))

-- An absolute path that ends with a segment ends with the segment's text.
absolute-last : (xs : List Str) (s t : Str) → (r : Str) × (absolute (xs ++ (s ++ t) ∷ []) ≡ r ++ t)
unfolding absolute joined
absolute-last [] s t = (slash ∷ s, refl)
absolute-last (x ∷ xs) s t = (
  (slash ∷ joined (x ∷ xs)) ++ slash ∷ s,
  ap (λ (p : Str). slash ∷ p) (joined-append x xs (s ++ t))
      ∙ sym (append_assoc (slash ∷ joined (x ∷ xs)) (slash ∷ s) t),
)

git_dir-IsWord : IsWord git_dir
unfolding ◌==◌
git_dir-IsWord = record { given = refl; dark = refl }

trim_absolute :
    (xs : List Str) (name : Str)
    → trim_space (absolute (xs ++ (name ++ git_dir) ∷ []) ++ newline ∷ [])
      ≡ absolute (xs ++ (name ++ git_dir) ∷ [])
unfolding absolute ◌==◌
trim_absolute xs name =
    let (r, e) = absolute-last xs name git_dir in
    trim_space_line (absolute (xs ++ (name ++ git_dir) ∷ [])) refl refl
      (rw e (ends_dark r git_dir git_dir-IsWord))

repository_of-absolute :
    (xs : List Str) (name : Str)
    → All IsSegment xs
    → has_byte slash name ≡ false
    → repository_of (absolute (xs ++ (name ++ git_dir) ∷ [])) ≡ absolute xs
unfolding repository_of
repository_of-absolute xs name h n =
    let (r, e) = absolute-last xs name git_dir in
    rw (ap (has_suffix git_dir) e ∙ has_suffix-append git_dir r) (
      dir-absolute xs (name ++ git_dir) h
        (has_byte-append slash name git_dir ∙ rw n (unfold has_byte in refl)))

in_main : repository_of (trim_space (git_dir ++ newline ∷ [])) ≡ dot
unfolding repository_of has_suffix has_prefix dir trim_space ◌==◌ has_byte
in_main = refl

module _ (git : Git) (pwd : Option Str) (r : Repository) (xs : List Str) (name combined : Str) where
  -- Git prints `.git` in the main worktree, and in a linked worktree the absolute path of the
  -- repository's directory, here one whose name ends with `.git`. In both the answer is the absolute
  -- path of the directory in which that directory lies.
  pub get_main_worktree_path-main :
      (linked : Bool)
      → All IsSegment xs
      → has_byte slash name ≡ false
      → git common_dir
        ≡ succeeded
            ((if linked then absolute (xs ++ (name ++ git_dir) ∷ []) else git_dir) ++ newline ∷ [])
            combined
      → get_main_worktree_path git pwd (if linked then r else record { path = absolute xs })
        ≡ ok (absolute xs)
  unfolding get_main_worktree_path output_or absolute_or is_abs
  get_main_worktree_path-main true plain n printed =
      rw
        (printed, trim_absolute xs name, repository_of-absolute xs name plain n, absolute-is_abs xs)
        refl
  get_main_worktree_path-main false plain n printed =
      rw (printed, in_main, join-dot xs plain) (ap (absolute_or) (abs-absolute pwd xs plain))
