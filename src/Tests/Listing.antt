-- ===== src/Tests/Listing.antt =====
-- `wtp list` and completion at concrete inputs.
use wtp.Base.{◌≡◌, refl, true, ◌||◌, [], ◌∷◌, ◌++◌, if◌then◌else◌, nat_eq}
use wtp.Base.Dict.{Dict, lookup, in_set}
use wtp.Base.Lists.{length}
use wtp.Base.Text.{Str, str, ◌==◌, contains, cut, cut_prefix, split_byte, trim_space}
use wtp.Remote.{state_key, storage_path}
use wtp.State.{WorktreeState}
use wtp.Cli.Completion.{get_branches, offered, distinct, get_branches-offered}
use wtp.Cli.List.{branches_of, append_archived_entries}
use wtp.Cli.List.Archived.{is_archived, append_archived_entries-branches}
use wtp.Cli.List.Rows.{truncate_str}
use wtp.Cli.List.Rows.Width.{min, length-truncate_str}
use wtp.Tests.Commands.{app, two_worktrees}
use wtp.Tests.Stores.{archived_at}

length-truncate_str_example : length (truncate_str (str "feature/add-login-form") 12) ≡ (
    if nat_eq 12 0
    then length (str "feature/add-login-form")
    else min 12 (length (str "feature/add-login-form")))
length-truncate_str_example = length-truncate_str (str "feature/add-login-form") 12

abbrev one_entry : Dict WorktreeState
one_entry = (str "o/r::old", archived_at 5 (str "c1")) ∷ []

append_archived_entries-branches_example :
    in_set (str "old") (branches_of (append_archived_entries two_worktrees one_entry app)) ≡ (
      in_set (str "old") (branches_of two_worktrees)
      || is_archived (lookup (state_key app (str "old")) one_entry))
unfolding storage_path contains cut cut_prefix ◌==◌ lookup
append_archived_entries-branches_example =
    append_archived_entries-branches (str "old") two_worktrees one_entry app refl refl (refl, tt)

abbrev refs : Str
refs = str "main" ++ 10 ∷ str "origin/main"

get_branches-offered_example :
    (in_set (str "main") (get_branches refs)
      ≡ offered (str "main") (split_byte 10 (trim_space refs)))
    × (distinct (get_branches refs) ≡ true)
get_branches-offered_example = get_branches-offered (str "main") refs
