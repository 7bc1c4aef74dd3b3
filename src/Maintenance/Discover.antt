-- ===== src/Maintenance/Discover.antt =====
-- internal/maintenance/discover.go: the main repository that the `.git` file of a linked worktree
-- names, and the directories in the output of lsof. `exists` is `os.Stat` of a path.
pub mod Linked
use wtp.Base.{Bool, not, ◌||◌, Option, none, some, List, [], ◌∷◌, if◌then◌else◌}
use wtp.Base.Text.{Str, str, ◌==◌, cut_prefix, trim_space}
use wtp.FilePath.{is_abs, join, dir, base, clean}

-- A relative directory is seen from that of the file.
anchored : Str → Str → Str
anchored git_file git_dir = if is_abs git_dir then git_dir else join (dir git_file) git_dir

main_of : (Str → Bool) → Str → Option Str
main_of exists git_dir =
    let worktrees_dir = dir (clean git_dir) in
    let common_dir = dir worktrees_dir in
    if not (base worktrees_dir == str "worktrees") || not (base common_dir == str ".git")
    then none
    else if exists common_dir
    then some (dir common_dir)
    else none

main_in : (Str → Bool) → Str → Option Str → Option Str
unfolding anchored main_of
main_in exists git_file none = none
main_in exists git_file (some git_dir) = main_of exists (anchored git_file (trim_space git_dir))

-- The content of the file is `none` where it cannot be read.
unfoldable pub main_repo_from_git_file : (Str → Bool) → Str → Option Str → Option Str
unfolding main_in
main_repo_from_git_file exists git_file none = none
main_repo_from_git_file exists git_file (some text) =
    main_in exists git_file (cut_prefix (str "gitdir:") (trim_space text))

dirs_of : Option Str → List Str → List Str
dirs_of none dirs = dirs
dirs_of (some name) dirs = if name == [] then dirs else name ∷ dirs

-- The lines of lsof's output that name a directory.
unfoldable pub parse_lsof_names : List Str → List Str
unfolding dirs_of
parse_lsof_names [] = []
parse_lsof_names (line ∷ lines) = dirs_of (cut_prefix (str "n") line) (parse_lsof_names lines)
