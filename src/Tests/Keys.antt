-- ===== src/Tests/Keys.antt =====
-- Remote URLs, state keys, listings, paths and checks at concrete inputs.
use wtp.Base.{◌≡◌, ◌↔◌, refl, true, false, Option, none, some, List, [], ◌∷◌}
use wtp.Base.Text.{
  Str, str, ◌==◌, has_byte, cut_prefix, contains, cut, cut_byte, split_n, after_last, trim_suffix,
  trim_prefix,
}
use wtp.Remote.{RepoIdentifier, storage_path, parse, slash}
use wtp.Remote.Keys.{HasSegments, state_key-injective}
use wtp.Remote.Identifiers.{IsCanonical, parse-IsCanonical}
use wtp.Git.{Worktree, mark_main, parse_worktree_list_output}
use wtp.Git.Porcelain.{Entry, on_branch, detached, porcelain}
use wtp.Git.Porcelain.RoundTrip.{parse_worktree_list_output-porcelain}
use wtp.Github.{CheckEntry}
use wtp.FilePath.{joined, is_path_within}
use wtp.FilePath.Plain.{IsSegment, absolute}
use wtp.FilePath.Relative.{IsBelow, is_path_within-IsBelow}

abbrev gitlab : RepoIdentifier
gitlab = record { host = str "gitlab.com"; owner = str "acme"; repo = str "app" }

gitlab-HasSegments : HasSegments gitlab
unfolding has_byte
gitlab-HasSegments = record { owner_segment = refl; repo_segment = refl }

state_key-injective_example : (gitlab ≡ gitlab) × (str "main" ≡ str "main")
unfolding storage_path contains cut ◌==◌ cut_prefix
state_key-injective_example =
    state_key-injective gitlab gitlab (str "main") (str "main") gitlab-HasSegments
      gitlab-HasSegments refl refl refl

-- `url.Parse` for URLs that begin with `https://`: the host up to the slash, and the rest.
abbrev https_parts : Option (Str × Str) → Option (Str × Str)
https_parts none = none
https_parts (some (host, path)) = some (host, slash ∷ path)

abbrev https_rest : Option Str → Option (Str × Str)
https_rest none = none
https_rest (some rest) = https_parts (cut_byte slash rest)

abbrev https_parse : Str → Option (Str × Str)
https_parse url = https_rest (cut_prefix (str "https://") url)

abbrev app : RepoIdentifier
app = record { host = []; owner = str "acme"; repo = str "app" }

parse-IsCanonical_example : IsCanonical app
unfolding parse contains cut ◌==◌ cut_prefix cut_byte split_n after_last trim_suffix trim_prefix
parse-IsCanonical_example =
    parse-IsCanonical https_parse (str "https://github.com/acme/app.git") app refl

abbrev main_entry : Entry
main_entry = on_branch (str "/r") (str "a1") (str "main")

abbrev loose_entry : Entry
loose_entry = detached (str "/w/x") (str "b2")

parse_worktree_list_output-porcelain_example :
    parse_worktree_list_output (porcelain (main_entry ∷ loose_entry ∷ []))
    ≡ record { path = str "/r"; branch = str "main"; head = str "a1"; is_main = true }
      ∷ record { path = str "/w/x"; branch = str "detached"; head = str "b2"; is_main = false }
      ∷ []
unfolding ◌==◌ has_byte mark_main
parse_worktree_list_output-porcelain_example =
    parse_worktree_list_output-porcelain (main_entry ∷ []) loose_entry
      ((refl, refl, refl, refl), tt) (refl, refl, refl) tt

segment :
    (x : Str)
    → (x == []) ≡ false
    → (x == str ".") ≡ false
    → (x == str "..") ≡ false
    → has_byte slash x ≡ false
    → IsSegment x
segment x a b c d = record { given = a; no_dot = b; no_dots = c; no_slash = d }

is_path_within-IsBelow_example :
    (is_path_within (str "/a/b") (str "/a/bc") ≡ true)
    ↔ IsBelow (str "a" ∷ str "b" ∷ []) (str "a" ∷ str "bc" ∷ [])
unfolding ◌==◌ has_byte absolute joined
is_path_within-IsBelow_example =
    is_path_within-IsBelow (str "a" ∷ str "b" ∷ []) (str "a" ∷ str "bc" ∷ [])
      (segment (str "a") refl refl refl refl, (segment (str "b") refl refl refl refl, tt))
      (segment (str "a") refl refl refl refl, (segment (str "bc") refl refl refl refl, tt))

abbrev one_skipped : List CheckEntry
one_skipped =
    record { name = str "build"; state = str "FAILURE" }
    ∷ record { name = str "docs"; state = str "SKIPPED" }
    ∷ []

abbrev two_worktrees : List Worktree
two_worktrees =
    record { path = str "/r"; branch = str "main"; head = str "a1"; is_main = true }
    ∷ record { path = str "/w/x"; branch = str "x"; head = str "b2"; is_main = false }
    ∷ []
