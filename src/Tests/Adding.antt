-- ===== src/Tests/Adding.antt =====
-- Branches, the main worktree and `wtp add` at concrete inputs.
use wtp.Base.{◌≡◌, refl, true, false, none, some, List, [], ◌∷◌, ◌++◌, if◌then◌else◌}
use wtp.Base.Result.{ok}
use wtp.Base.Text.{Str, str, ◌==◌, has_byte, contains, cut, cut_prefix, to_lower}
use wtp.Base.Text.Trim.{IsWord}
use wtp.FilePath.Plain.{absolute}
use wtp.Git.{newline}
use wtp.Git.Branches.{Git, succeeded, exited, is_unsafe, resolve_branch}
use wtp.Git.Branches.Resolution.{IsRemoteName, printed_refs, resolution, resolve_branch-resolution}
use wtp.Git.Repository.{get_main_worktree_path}
use wtp.Git.Repository.MainPath.{get_main_worktree_path-main}
use wtp.Cli.Add.{
  analyze_git_worktree_error, branch_already_exists, is_branch_not_found_error,
  is_worktree_already_exists_error,
}
use wtp.Cli.Add.Reading.{taken, analyze_git_worktree_error-taken}
use wtp.Cli.Add.Create.{AddWorld, AddAround}
use wtp.Tests.Commands.{Log, log_executor}
use wtp.Tests.Hooking.{log_files, r-IsSegment}

-- A git in which the remotes have a branch `q`, and no local branch is.
abbrev origin_only : List Str
origin_only = str "origin" ∷ []

abbrev two_remotes : List Str
two_remotes = str "origin" ∷ str "fork" ∷ []

abbrev remotes_git : List Str → Git
remotes_git remotes (name ∷ args) =
    if name == str "show-ref"
    then exited (some 1) (str "exit status 1") []
    else succeeded (printed_refs (str "q") remotes) []
remotes_git remotes [] = succeeded [] []

q-IsWord : IsWord (str "q")
unfolding ◌==◌
q-IsWord = record { given = refl; dark = refl }

origin-IsRemoteName : IsRemoteName (str "origin")
unfolding ◌==◌ has_byte
origin-IsRemoteName = record { word = record { given = refl; dark = refl }; no_slash = refl }

fork-IsRemoteName : IsRemoteName (str "fork")
unfolding ◌==◌ has_byte
fork-IsRemoteName = record { word = record { given = refl; dark = refl }; no_slash = refl }

resolve_branch-resolution_example :
    resolve_branch (remotes_git two_remotes) (str "q") ≡ resolution (str "q") false two_remotes
unfolding is_unsafe contains cut cut_prefix has_byte ◌==◌
resolve_branch-resolution_example =
    resolve_branch-resolution (remotes_git two_remotes) (str "q") (str "exit status 1") [] false
      two_remotes q-IsWord refl (origin-IsRemoteName, (fork-IsRemoteName, tt))
      ((refl, tt), (tt, tt)) refl refl

-- A linked worktree of the repository at `/r`.
abbrev linked_git : Git
linked_git args = succeeded (absolute (str "r" ∷ str ".git" ∷ []) ++ newline ∷ []) []

get_main_worktree_path-main_example :
    get_main_worktree_path linked_git none (record { path = str "/w/q" })
    ≡ ok (absolute (str "r" ∷ []))
unfolding has_byte
get_main_worktree_path-main_example =
    get_main_worktree_path-main linked_git none (record { path = str "/w/q" }) (str "r" ∷ []) [] []
      true r-IsSegment refl refl

abbrev add_around : AddAround Log
add_around = record {
  execute = log_executor;
  git_in = λ log dir. remotes_git origin_only;
  get_remote_url = λ log name. some (str "git@github.com:o/r.git");
  url_parse = λ url. none;
  data_home = str "/d";
  pwd = some (str "/r");
  environ = str "__WTP_HOOKED=1" ∷ [];
  ensure_dir = λ dir log. (true, (str "mkdir" ∷ dir ∷ []) ∷ log);
  files = log_files;
  shell = str "sh";
  shell_flag = str "-c";
  can_mark = true;
}

abbrev empty_world : AddWorld Log
empty_world = record { git = []; printed = []; marked = [] }

analyze_git_worktree_error-taken_example :
    analyze_git_worktree_error
      (str "/w/my-Branch")
      (str "my-Branch")
      (str "exit status 128")
      (taken (str "/w/my-Branch"))
    ≡ branch_already_exists (str "my-Branch") (str "exit status 128")
unfolding to_lower is_branch_not_found_error is_worktree_already_exists_error contains cut
    cut_prefix
analyze_git_worktree_error-taken_example =
    analyze_git_worktree_error-taken (str "/w/my-Branch") (str "my-Branch") (str "exit status 128")
      (str "/w/my-") [] refl refl refl
