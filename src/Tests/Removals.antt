-- ===== src/Tests/Removals.antt =====
-- Removals in a repository that keeps a log of its commands.
use wtp.Base.{
  not, inl, inr, Bool, ◌&&◌, if◌then◌else◌, ◌≡◌, ◌⊎◌, refl, true, false, none, some, List, [], ◌∷◌,
  ◌++◌, map,
}
use wtp.Base.Result.{ok, err}
use wtp.Base.Text.{
  Str, str, trim_space, trim_prefix, ◌==◌, split_byte, has_prefix, contains, cut_byte, split_n,
  trim_suffix, after_last,
}
use wtp.Base.Lists.{All}
use wtp.Base.Text.{has_byte}
use wtp.FilePath.Plain.{IsSegment, absolute}
use wtp.Cli.Remove.Cleanup.{cleanup_centralized_worktree_dir}
use wtp.Cli.Remove.Cleanup.Storage.{cleanup_centralized_worktree_dir-walk}
use wtp.FilePath.{joined, abs, is_path_within}
use wtp.Git.{Worktree, parse_worktree_list_output}
use wtp.Remote.{RepoIdentifier, parse, parse_scp, state_key}
use wtp.Command.{Command, Executor}
use wtp.Store.Atomic.{no_faults}
use wtp.State.{load_state}
use wtp.Cache.{empty_cache, load_cache}
use wtp.Cli.Remove.{RemoveWorld, Around, Flags, RemoveError, removed_worktree, removed_branch}
use wtp.Cli.Remove.{failure_of, find_target_worktree_from_list}
use wtp.Cli.Remove.Cleanup.{cleanup_worktree_state_and_cache}
use wtp.Cli.Remove.Cleanup.Erasure.{IsErased, cleanup-IsErased}
use wtp.Cli.Remove.Run.{worktree_removed, target, remove_command_with_command_executor}
use wtp.Cli.Remove.Run.Guard.{removal, removed_world, IsAimed, run, listed_world, remove-IsAimed}
use wtp.Cli.Remove.Run.Course.{deletion, IsGone, remove-IsGone}
use wtp.Cli.Remove.Run.Success.{remove-succeeds}
use wtp.Tests.Codec.{
  state_codec, state_codec-IsFaithful, state_codec-IsTotal, cache_codec, cache_codec-IsTotal,
  cache_codec-IsFaithful,
}
use wtp.Tests.Stores.{full_disk, no_disk, three_entries}
use wtp.Tests.Commands.{Log}

abbrev listing_text : Str
listing_text =
    str
      "worktree /r\nHEAD a1\nbranch refs/heads/main\n\nworktree /w/x\nHEAD b2\nbranch refs/heads/x\n"

abbrev asks_removal : List Str → Bool
asks_removal (noun ∷ verb ∷ rest) = noun == str "worktree" && verb == str "remove"
asks_removal _ = false

-- Every command says what the listing says, and the removal may fail.
abbrev executor : Bool → Executor Log
executor refuses cs log = (
  ok (
      map
        (λ (c : Command). record {
          command = c;
          output = listing_text;
          error = if refuses && asks_removal c.args then some (str "exit status 128") else none;
        })
        cs),
  map (λ (c : Command). c.args) cs ++ log,
)

abbrev around_that : Bool → Around Log
around_that refuses = record {
  execute = executor refuses;
  pwd = some (str "/r");
  in_repository = λ log. true;
  remote_url = λ log. some (str "git@github.com:o/r.git");
  url_parse = λ url. none;
  storage_root = [];
  remove_dir = λ path log. (false, log);
  state_codec = state_codec;
  state_faults = no_faults;
  cache_codec = cache_codec;
  cache_faults = no_faults;
  can_print = true;
}

abbrev around : Around Log
around = around_that false

abbrev flags : Flags
flags = record { force = false; keep_branch = false; force_branch = false }

abbrev world : RemoveWorld Log
world = record { git = []; state = full_disk; cache = no_disk; printed = [] }

abbrev main_worktree : Worktree
main_worktree = record { path = str "/r"; branch = str "main"; head = str "a1"; is_main = true }

abbrev x_worktree : Worktree
x_worktree = record { path = str "/w/x"; branch = str "x"; head = str "b2"; is_main = false }

remove-IsAimed_example :
    ((e : RemoveError) × (run around (str "/w/x/a") (str "x") flags world
        ≡ (err e, listed_world around (str "/w/x/a") (str "x") flags world)))
    ⊎ ((wt : Worktree) × IsAimed around (str "/w/x/a") (str "x") flags world wt
        × (run around (str "/w/x/a") (str "x") flags world
            ≡ worktree_removed around
                (str "x")
                flags
                wt
                (failure_of (removal around (str "/w/x/a") (str "x") flags world wt).0)
                (removed_world around (str "/w/x/a") (str "x") flags world wt)))
remove-IsAimed_example = remove-IsAimed around (str "/w/x/a") (str "x") flags world

remove-IsGone_example :
    (wt : Worktree) × IsAimed around (str "/r") (str "x") flags world wt
    × IsGone around
        (str "/r")
        (str "x")
        flags
        world
        wt
        (run around (str "/r") (str "x") flags world)
unfolding failure_of ◌==◌ parse_worktree_list_output target find_target_worktree_from_list abs
    is_path_within split_byte has_prefix remove_command_with_command_executor trim_space trim_prefix
remove-IsGone_example = remove-IsGone around (str "/r") (str "x") flags world refl

x-IsAimed :
    (refuses : Bool) → IsAimed (around_that refuses) (str "/r") (str "x") flags world x_worktree
unfolding ◌==◌ parse_worktree_list_output target find_target_worktree_from_list abs is_path_within
    split_byte has_prefix trim_space trim_prefix
x-IsAimed refuses = record {
  answer = _;
  others = [];
  answered = refl;
  chosen = refl;
  removable = record {
    is_found = record {
      before = main_worktree ∷ [];
      after = [];
      position = refl;
      passed_over = (refl, tt);
      linked = refl;
      named = refl;
    };
    abs_target = str "/w/x";
    abs_cwd = str "/r";
    target_is = refl;
    cwd_is = refl;
    elsewhere = refl;
  };
}

remove-succeeds_example :
    ((run around (str "/r") (str "x") flags world).0 ≡ ok tt)
    × ((run around (str "/r") (str "x") flags world).1.git
        ≡ (deletion around (str "/r") (str "x") flags world x_worktree).1)
    × ((run around (str "/r") (str "x") flags world).1.printed
        ≡ removed_worktree (str "x") (str "/w/x") ∷ removed_branch (str "x") ∷ [])
unfolding failure_of ◌==◌
remove-succeeds_example =
    remove-succeeds around (str "/r") (str "x") flags world x_worktree (x-IsAimed false) refl refl
      refl refl refl

abbrev x_repository : RepoIdentifier
x_repository = record { host = []; owner = str "o"; repo = str "r" }

cleanup-IsErased_example :
    IsErased around
      (str "x")
      world
      state_codec-IsFaithful
      state_codec-IsTotal
      cache_codec-IsFaithful
      cache_codec-IsTotal
      (state_key x_repository (str "x"))
      three_entries
      empty_cache
      (cleanup_worktree_state_and_cache around (str "x") world)
unfolding parse ◌==◌ contains parse_scp cut_byte split_n trim_suffix after_last load_state
    load_cache
cleanup-IsErased_example =
    cleanup-IsErased around (str "x") world state_codec-IsFaithful state_codec-IsTotal
      cache_codec-IsFaithful cache_codec-IsTotal (str "git@github.com:o/r.git") x_repository
      three_entries empty_cache refl refl refl refl refl refl refl

letter : (x : Str) → (x ≡ str "s") ⊎ ((x ≡ str "o") ⊎ (x ≡ str "x")) → IsSegment x
unfolding ◌==◌ has_byte
letter x (inl e) = rw e (record { given = refl; no_dot = refl; no_dots = refl; no_slash = refl })
letter x (inr (inl e)) =
    rw e (record { given = refl; no_dot = refl; no_dots = refl; no_slash = refl })
letter x (inr (inr e)) =
    rw e (record { given = refl; no_dot = refl; no_dots = refl; no_slash = refl })

s-IsSegment : All IsSegment (str "s" ∷ [])
s-IsSegment = (letter (str "s") (inl refl), tt)

-- A storage at `/s` whose directory `/s/o` is not empty.
abbrev stored : Around Log
stored = record around {
  storage_root = str "/s";
  remove_dir = λ path log. (not (path == str "/s/o"), (path ∷ []) ∷ log);
}

cleanup_centralized_worktree_dir-walk_example :
    cleanup_centralized_worktree_dir stored (absolute (str "s" ∷ str "o" ∷ str "x" ∷ [])) []
    ≡ (str "/s/o" ∷ []) ∷ (str "/s/o/x" ∷ []) ∷ []
unfolding absolute joined ◌==◌
cleanup_centralized_worktree_dir-walk_example =
    cleanup_centralized_worktree_dir-walk stored (str "s") [] (str "x") (str "o" ∷ []) s-IsSegment
      (letter (str "x") (inr (inr refl)), (letter (str "o") (inr (inl refl)), tt)) refl []
