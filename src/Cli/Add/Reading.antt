-- ===== src/Cli/Add/Reading.antt =====
-- How `analyzeGitWorktreeError` reads that the destination path is taken.
use mathlib.Core.List.{map-append, append_assoc}
use wtp.Base.{◌≡◌, refl, sym, ap, ◌∙◌, true, false, [], ◌++◌}
use wtp.Base.Text.{Str, str, contains, to_lower}
use wtp.Base.Text.Search.{contains-append}
use wtp.Cli.Add.{
  branch_already_exists, analyze_git_worktree_error, is_branch_not_found_error,
  is_worktree_already_exists_error,
}

-- What git prints if the directory of the new worktree is there and is not empty.
abbrev pub taken : Str → Str
taken path = str "fatal: '" ++ (path ++ str "' already exists")

lower_taken :
    (path a c : Str)
    → to_lower path ≡ a ++ (str "branch" ++ c)
    → to_lower (taken path)
      ≡ (str "fatal: '" ++ a) ++ (str "branch" ++ (c ++ str "' already exists"))
unfolding to_lower
lower_taken path a c h =
    ap (λ (t : Str). str "fatal: '" ++ t)
      (map-append _ path (str "' already exists")
        ∙ (ap (λ (t : Str). t ++ str "' already exists") h
            ∙ (append_assoc a (str "branch" ++ c) (str "' already exists")
                ∙ ap (λ (t : Str). a ++ t)
                    (append_assoc (str "branch") c (str "' already exists")))))
    ∙ sym (append_assoc (str "fatal: '") a _)

lower_exists :
    (path a c : Str)
    → to_lower path ≡ a ++ (str "branch" ++ c)
    → to_lower (taken path)
      ≡ ((str "fatal: '" ++ a) ++ (str "branch" ++ (c ++ str "' "))) ++ (str "already exists" ++ [])
lower_exists path a c h =
    lower_taken path a c h
    ∙ (ap (λ (t : Str). (str "fatal: '" ++ a) ++ (str "branch" ++ t))
          (sym (append_assoc c (str "' ") (str "already exists")))
        ∙ (ap (λ (t : Str). (str "fatal: '" ++ a) ++ t)
              (sym (append_assoc (str "branch") (c ++ str "' ") (str "already exists")))
            ∙ sym (append_assoc (str "fatal: '" ++ a) (str "branch" ++ (c ++ str "' ")) _)))

read_as_branch :
    (path branch git_error output : Str)
    → is_branch_not_found_error (to_lower output) ≡ false
    → is_worktree_already_exists_error (to_lower output) ≡ false
    → contains (str "branch") (to_lower output) ≡ true
    → contains (str "already exists") (to_lower output) ≡ true
    → analyze_git_worktree_error path branch git_error output
      ≡ branch_already_exists branch git_error
unfolding analyze_git_worktree_error
read_as_branch path branch git_error output r u b e = rw (r, u, b, e) refl

-- If the destination path is taken and has `branch` in it, in any case of its letters, git's output
-- is read as a branch that exists already, unless it has the words for a branch that is not found or
-- that another worktree has.
pub analyze_git_worktree_error-taken :
    (path branch git_error a c : Str)
    → to_lower path ≡ a ++ (str "branch" ++ c)
    → is_branch_not_found_error (to_lower (taken path)) ≡ false
    → is_worktree_already_exists_error (to_lower (taken path)) ≡ false
    → analyze_git_worktree_error path branch git_error (taken path)
      ≡ branch_already_exists branch git_error
analyze_git_worktree_error-taken path branch git_error a c h no_reference not_used =
    read_as_branch path branch git_error (taken path) no_reference not_used
      (ap (contains (str "branch")) (lower_taken path a c h)
        ∙ contains-append (str "branch") (str "fatal: '" ++ a) (c ++ str "' already exists"))
      (ap (contains (str "already exists")) (lower_exists path a c h)
        ∙ contains-append (str "already exists")
            ((str "fatal: '" ++ a) ++ (str "branch" ++ (c ++ str "' "))) [])
