-- ===== src/Errors.antt =====
-- internal/errors/errors.go: the messages of the errors, as text. A wrapped error is its own text.
pub mod Wrapped
use wtp.Base.{ℕ, suc, ◌+◌, Bool, true, false, not, ◌&&◌, ◌||◌, List, [], ◌∷◌, ◌++◌, if◌then◌else◌}
use wtp.Base.Lists.{no_items}
use wtp.Base.Text.{Str, str, ◌==◌, contains, trim_space, itoa}

abbrev newline : ℕ
newline = 10

-- Lines with line breaks between them.
unfoldable pub text : List Str → Str
text [] = []
text (line ∷ []) = line
text (line ∷ next ∷ lines) = line ++ newline ∷ text (next ∷ lines)

-- The same behind a blank line.
abbrev pub paragraph : List Str → Str
paragraph lines = newline ∷ newline ∷ text lines

-- A line of a list, with the three bytes of the bullet.
abbrev pub bullet : Str → Str
bullet line = 32 ∷ 32 ∷ 226 ∷ 128 ∷ 162 ∷ 32 ∷ line

unfoldable pub bullets : List Str → Str
bullets [] = []
bullets (line ∷ lines) = newline ∷ bullet line ++ bullets lines

abbrev pub quoted : Str → Str
quoted s = 39 ∷ s ++ 39 ∷ []

abbrev pub original : Str → Str
original e = newline ∷ newline ∷ str "Original error: " ++ e

unfoldable pub not_in_git_repository : Str
unfolding text
not_in_git_repository = text (
    str "not in a git repository"
    ∷ []
    ∷ str "Solutions:"
    ∷ bullet (str "Run 'git init' to create a new repository")
    ∷ bullet (str "Navigate to an existing git repository")
    ∷ bullet (str "Check if you're in the correct directory")
    ∷ [])

unfoldable pub git_command_failed : Str → Str → Str
unfolding text
git_command_failed command output =
    let clean_output =
      if trim_space output == []
      then str "no additional details available"
      else trim_space output in
    text (
      (str "git command failed: " ++ command)
      ∷ []
      ∷ (str "Details: " ++ clean_output)
      ∷ []
      ∷ str "Tip: Try running the git command manually to see the full error"
      ∷ [])

unfoldable pub branch_name_required : Str → Str
unfolding text
branch_name_required command_example = text (
    str "branch name is required"
    ∷ []
    ∷ (str "Usage: " ++ command_example)
    ∷ []
    ∷ str "Examples:"
    ∷ bullet (str "wtp add feature/auth")
    ∷ bullet (str "wtp add -b new-feature")
    ∷ bullet (str "wtp add --track origin/main main")
    ∷ [])

unfoldable pub worktree_name_required_for_remove : Str
unfolding text
worktree_name_required_for_remove = text (
    str "worktree name is required"
    ∷ []
    ∷ str "Usage: wtp remove <worktree-name>"
    ∷ []
    ∷ str "Examples:"
    ∷ bullet (str "wtp remove feature/auth                    # Removes worktree and branch")
    ∷ bullet (str "wtp remove --keep-branch feature/auth      # Removes worktree, keeps branch")
    ∷ bullet (str "wtp remove --force feature/auth            # Force remove dirty worktree")
    ∷ []
    ∷ str "Tip: Run 'wtp list' to see available worktrees"
    ∷ [])

unfoldable pub invalid_branch_name : Str → Str
unfolding text
invalid_branch_name branch_name = text (
    (str "invalid branch name: " ++ quoted branch_name)
    ∷ []
    ∷ str "Branch names cannot contain:"
    ∷ bullet (str "'..' (double dots)")
    ∷ bullet (str "Newline characters")
    ∷ bullet (str "Control characters")
    ∷ []
    ∷ str "See 'git check-ref-format --help' for full rules"
    ∷ [])

unfoldable pub worktree_not_found : Str → List Str → Str
unfolding bullets
worktree_not_found name available_worktrees =
    str "worktree "
    ++ (quoted name
        ++ (str " not found"
            ++ ((if no_items available_worktrees
                  then paragraph (str "No worktrees found." ∷ [])
                  else paragraph (str "Available worktrees:" ∷ []) ++ bullets available_worktrees)
                ++ paragraph (str "Tip: Run 'wtp list' to see all worktrees" ∷ []))))

unfoldable pub cannot_remove_current_worktree : Str → Str → Str
unfolding text
cannot_remove_current_worktree worktree_name path =
    str "cannot remove worktree "
    ++ (quoted worktree_name
        ++ (str " while you are currently inside it"
            ++ (paragraph ((str "Current location: " ++ path) ∷ [])
                ++ paragraph (
                    str
                      "Tip: Run 'wtp cd @' or 'wtp cd <another-worktree>' to switch before removing."
                    ∷ []))))

unfoldable pub config_already_exists : Str → Str
unfolding text
config_already_exists config_path = text (
    (str "configuration file already exists: " ++ config_path)
    ∷ []
    ∷ str "Options:"
    ∷ bullet (str "Edit the existing file manually")
    ∷ bullet (str "Delete it and run 'wtp init' again")
    ∷ bullet (str "Use 'wtp init --force' to overwrite (if that flag exists)")
    ∷ [])

unfoldable pub shell_integration_required : Str
unfolding text
shell_integration_required = text (
    str "cd command requires shell integration"
    ∷ []
    ∷ str "Setup:"
    ∷ bullet (str "Homebrew users: press TAB after typing 'wtp' once (automatic)")
    ∷ bullet (
        (str "Other installs: eval " ++ 34 ∷ str "$(wtp shell-init <shell>)")
        ++ 34 ∷ str " in your shell profile (~/.bashrc, ~/.zshrc, etc.)")
    ∷ []
    ∷ str "Help: Run 'wtp shell-init --help' for more details"
    ∷ [])

unfoldable pub unsupported_shell : Str → List Str → Str
unfolding text bullets
unsupported_shell shell supported_shells =
    str "unsupported shell: "
    ++ (shell
        ++ ((if no_items supported_shells
              then []
              else paragraph (str "Supported shells:" ∷ []) ++ bullets supported_shells)
            ++ paragraph (str "Workaround: You can still use wtp without shell integration" ∷ [])))

unfoldable pub branch_not_found : Str → Str
unfolding text
branch_not_found branch_name = text (
    (str "branch " ++ (quoted branch_name ++ str " not found in local or remote branches"))
    ∷ []
    ∷ str "Suggestions:"
    ∷ bullet (str "Check the branch name spelling")
    ∷ bullet (str "Run 'git branch -a' to see all branches")
    ∷ bullet (str "Create a new branch with 'wtp add -b " ++ (branch_name ++ str "'"))
    ∷ bullet (str "Fetch latest changes with 'git fetch'")
    ∷ [])

-- `strings.Join(remotes, ", ")`
listed : List Str → Str
listed [] = []
listed (remote ∷ []) = remote
listed (remote ∷ next ∷ remotes) = remote ++ (str ", " ++ listed (next ∷ remotes))

track_line : Str → Str → Str
track_line branch_name remote =
    bullet
      (str "wtp add --track " ++ (remote ++ (str "/" ++ (branch_name ++ (str " " ++ branch_name)))))

second_line : Str → List Str → Str
unfolding track_line
second_line branch_name (first ∷ second ∷ remotes) = newline ∷ track_line branch_name second
second_line branch_name _ = []

-- The index `remotes[0]` is in range at the only call, which passes more than one.
first_of : List Str → Str
first_of [] = []
first_of (first ∷ remotes) = first

abbrev pub multiple_phrase : Str
multiple_phrase = str "exists in multiple remotes"

unfoldable pub multiple_branches_found : Str → List Str → Str
unfolding text listed track_line second_line first_of
multiple_branches_found branch_name remotes =
    (str "branch " ++ (quoted branch_name ++ str " "))
    ++ (multiple_phrase
        ++ (str ": "
            ++ (listed remotes
                ++ (paragraph (
                      str "Solution: Specify the remote explicitly:"
                      ∷ track_line branch_name (first_of remotes)
                      ∷ [])
                    ++ second_line branch_name remotes))))
