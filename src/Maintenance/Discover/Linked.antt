-- ===== src/Maintenance/Discover/Linked.antt =====
-- The file that git writes into a linked worktree names the main repository.
use mathlib.Core.List.{reverse, append_assoc}
use wtp.Base.{◌≡◌, refl, sym, ap, ◌∙◌, Bool, true, none, some, List, [], ◌∷◌, ◌++◌, if◌then◌else◌}
use wtp.Base.Text.{Str, str, ◌==◌, has_byte, trim_space, trim_left}
use wtp.Base.Text.Laws.{cut_prefix-append, starts_dark}
use wtp.Base.Text.Trim.{IsWord, ends_dark, trim_space_line, trim_space_dark}
use wtp.Base.Lists.{All, All-append}
use wtp.FilePath.{slash, dir, base, clean}
use wtp.FilePath.Plain.{IsSegment, absolute, absolute-is_abs, clean-absolute}
use wtp.FilePath.Parent.{dir-absolute}
use wtp.FilePath.Last.{absolute_ends, base-absolute}
use wtp.Git.{newline}
use wtp.Maintenance.Discover.{anchored, main_of, main_in, main_repo_from_git_file}

-- The directory of git for a worktree: `.git/worktrees/<name>` in the main repository.
abbrev common_parts : List Str → List Str
common_parts xs = xs ++ str ".git" ∷ []

abbrev worktrees_parts : List Str → List Str
worktrees_parts xs = common_parts xs ++ str "worktrees" ∷ []

abbrev pub linked_parts : List Str → Str → List Str
linked_parts xs name = ((xs ++ str ".git" ∷ []) ++ str "worktrees" ∷ []) ++ name ∷ []

git-IsSegment : IsSegment (str ".git")
unfolding ◌==◌ has_byte
git-IsSegment = record { given = refl; no_dot = refl; no_dots = refl; no_slash = refl }

worktrees-IsSegment : IsSegment (str "worktrees")
unfolding ◌==◌ has_byte
worktrees-IsSegment = record { given = refl; no_dot = refl; no_dots = refl; no_slash = refl }

module _ (xs : List Str) (name : Str) (hx : All IsSegment xs) (hn : IsSegment name) where
  common-IsSegment : All IsSegment (common_parts xs)
  common-IsSegment = All-append IsSegment xs (str ".git" ∷ []) hx (git-IsSegment, tt)

  worktrees-All : All IsSegment (worktrees_parts xs)
  worktrees-All =
      All-append IsSegment (common_parts xs) (str "worktrees" ∷ []) common-IsSegment
        (worktrees-IsSegment, tt)

  clean_linked : clean (absolute (linked_parts xs name)) ≡ absolute (linked_parts xs name)
  clean_linked =
      clean-absolute (linked_parts xs name)
        (All-append IsSegment (worktrees_parts xs) (name ∷ []) worktrees-All (hn, tt))

  base_worktrees : base (absolute (worktrees_parts xs)) ≡ str "worktrees"
  unfolding ◌==◌ has_byte
  base_worktrees = base-absolute (common_parts xs) (str "worktrees") refl refl refl

  base_common : base (absolute (common_parts xs)) ≡ str ".git"
  unfolding ◌==◌ has_byte
  base_common = base-absolute xs (str ".git") refl refl refl

  dir_linked : dir (clean (absolute (linked_parts xs name))) ≡ absolute (worktrees_parts xs)
  dir_linked =
      ap dir clean_linked ∙ dir-absolute (worktrees_parts xs) name worktrees-All hn.no_slash

  dir_worktrees : dir (absolute (worktrees_parts xs)) ≡ absolute (common_parts xs)
  dir_worktrees =
      dir-absolute (common_parts xs) (str "worktrees") common-IsSegment worktrees-IsSegment.no_slash

  dir_common : dir (absolute (common_parts xs)) ≡ absolute xs
  dir_common = dir-absolute xs (str ".git") hx git-IsSegment.no_slash

  main_of-linked :
      (exists : Str → Bool)
      → main_of exists (absolute (linked_parts xs name))
        ≡ (if exists (absolute (common_parts xs)) then some (absolute xs) else none)
  unfolding main_of ◌==◌
  main_of-linked exists =
      rw (dir_linked, base_worktrees, dir_worktrees, base_common, dir_common) refl

-- The line that git writes.
abbrev pub git_file_text : List Str → Str → Str
git_file_text xs name = (str "gitdir: " ++ absolute (linked_parts xs name)) ++ newline ∷ []

linked_ends_dark :
    (p : Str) (xs : List Str) (name : Str)
    → IsWord name
    → starts_dark (reverse (p ++ absolute (linked_parts xs name))) ≡ true
linked_ends_dark p xs name word =
    let (r, e) = absolute_ends (worktrees_parts xs) name in
    rw e (
      rw (sym (append_assoc p r (slash ∷ name))) (
        rw (sym (append_assoc (p ++ r) (slash ∷ []) name))
          (ends_dark ((p ++ r) ++ slash ∷ []) name word)))

trim_git_file :
    (xs : List Str) (name : Str)
    → IsWord name
    → trim_space (git_file_text xs name) ≡ str "gitdir: " ++ absolute (linked_parts xs name)
unfolding ◌==◌
trim_git_file xs name word =
    trim_space_line (str "gitdir: " ++ absolute (linked_parts xs name)) refl refl
      (linked_ends_dark (str "gitdir: ") xs name word)

trim_git_dir :
    (xs : List Str) (name : Str)
    → IsWord name
    → trim_space (32 ∷ absolute (linked_parts xs name)) ≡ absolute (linked_parts xs name)
unfolding trim_space trim_left absolute
trim_git_dir xs name word =
    trim_space_dark (absolute (linked_parts xs name)) refl (linked_ends_dark [] xs name word)

-- What git writes into the `.git` file of a linked worktree names the repository whose `.git`
-- directory holds the worktree, if that directory is there, and none if not, wherever the file
-- stands: for a repository at an absolute path of plain segments, and a worktree whose name is a plain
-- segment without blanks.
pub main_repo_from_git_file-linked :
    (exists : Str → Bool) (git_file : Str) (xs : List Str) (name : Str)
    → All IsSegment xs
    → IsSegment name
    → IsWord name
    → main_repo_from_git_file exists git_file (some (git_file_text xs name))
      ≡ (if exists (absolute (xs ++ str ".git" ∷ [])) then some (absolute xs) else none)
unfolding main_repo_from_git_file main_in anchored
main_repo_from_git_file-linked exists git_file xs name hx hn word =
    rw
      (
        trim_git_file xs name word,
        cut_prefix-append (str "gitdir:") (32 ∷ absolute (linked_parts xs name)),
        trim_git_dir xs name word,
        absolute-is_abs (linked_parts xs name),
      )
      (main_of-linked xs name hx hn exists)
