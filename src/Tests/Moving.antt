-- ===== src/Tests/Moving.antt =====
-- `wtp cd` at a concrete input.
use wtp.Base.{refl, true, none, some, List, [], ◌∷◌}
use wtp.Base.Result.{ok}
use wtp.Base.Text.{Str, str, ◌==◌, trim_space, split_byte, has_prefix, trim_suffix, trim_prefix}
use wtp.Command.{CommandResult, Executor, git_worktree_list}
use wtp.Git.{Worktree, parse_worktree_list_output}
use wtp.Cli.Resolver.{available_worktree_names, normalised, resolve_worktree_path_by_name}
use wtp.Cli.Resolver.Lookup.{IsFirst}
use wtp.Cli.Cd.{Finder, selected, cd_command_with_command_executor}
use wtp.Cli.Cd.Listed.{IsWanted, IsTaken, cd_command-IsFirst}

abbrev listing : CommandResult
listing = record {
  command = git_worktree_list;
  output =
      str
        "worktree /r\nHEAD a1\nbranch refs/heads/main\n\nworktree /w/x\nHEAD b2\nbranch refs/heads/x\n";
  error = none;
}

abbrev lister : Executor (List Str)
lister cs log = (ok (listing ∷ []), log)

-- A picker that takes the second worktree.
abbrev finder : Finder
finder = some (λ names query. selected (str "x"))

abbrev worktrees : List Worktree
worktrees = parse_worktree_list_output listing.output

cd_command-IsFirst_example :
    (wanted_name : Str) × IsWanted finder
      (available_worktree_names worktrees)
      (str "gone")
      wanted_name
    × ((name : Str) × IsTaken finder worktrees wanted_name name
        × IsFirst (normalised name) worktrees (str "/w/x"))
unfolding cd_command_with_command_executor ◌==◌ resolve_worktree_path_by_name
    parse_worktree_list_output split_byte trim_space has_prefix trim_prefix trim_suffix
cd_command-IsFirst_example =
    cd_command-IsFirst lister true finder (str "gone") [] [] listing [] (str "/w/x") refl refl
