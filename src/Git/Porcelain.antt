-- ===== src/Git/Porcelain.antt =====
-- The porcelain format that git documents, printed from the entries of a listing, without the lines
-- `locked` and `prunable`, which git adds to some entries.
pub mod Lines
pub mod RoundTrip
use mathlib.Core.List.{reverse}
use wtp.Base.{ℕ, ◌≡◌, Bool, true, false, List, [], ◌∷◌, ◌++◌}
use wtp.Base.Text.{Str, str, ◌==◌, has_byte}
use wtp.Base.Text.Laws.{starts_dark}
use wtp.Git.{Worktree, newline, detached_keyword}

-- What git prints of one worktree.
pub data Entry : Type 0 where
  on_branch : Str → Str → Str → Entry
  detached : Str → Str → Entry
  bare : Str → Entry

abbrev pub entry_path : Entry → Str
entry_path (on_branch path head branch) = path
entry_path (detached path head) = path
entry_path (bare path) = path

-- The lines of an entry without the blank line that ends it.
abbrev pub entry_lines : Entry → List Str
entry_lines (on_branch path head branch) =
    (str "worktree " ++ path) ∷ (str "HEAD " ++ head) ∷ (str "branch refs/heads/" ++ branch) ∷ []
entry_lines (detached path head) =
    (str "worktree " ++ path) ∷ (str "HEAD " ++ head) ∷ str "detached" ∷ []
entry_lines (bare path) = (str "worktree " ++ path) ∷ str "bare" ∷ []

abbrev pub entries_lines : List Entry → List Str
entries_lines [] = []
entries_lines (e ∷ es) = entry_lines e ++ ([] ∷ entries_lines es)

abbrev pub unlines : List Str → Str
unlines [] = []
unlines (l ∷ ls) = l ++ (newline ∷ unlines ls)

-- The output of `git worktree list --porcelain`.
unfoldable pub porcelain : List Entry → Str
porcelain es = unlines (entries_lines es)

-- The worktree that stands for an entry.
abbrev pub listed : Entry → Worktree
listed (on_branch path head branch) = record {
  path = path;
  branch = branch;
  head = head;
  is_main = false;
}
listed (detached path head) = record {
  path = path;
  branch = detached_keyword;
  head = head;
  is_main = false;
}
listed (bare path) = record { path = path; branch = []; head = []; is_main = false }

-- No field holds a line break, and there is a path.
abbrev pub IsPrintable : Entry → Type 0
IsPrintable (on_branch path head branch) =
    ((path == []) ≡ false)
    × (has_byte newline path ≡ false)
    × (has_byte newline head ≡ false)
    × (has_byte newline branch ≡ false)
IsPrintable (detached path head) =
    ((path == []) ≡ false) × (has_byte newline path ≡ false) × (has_byte newline head ≡ false)
IsPrintable (bare path) = ((path == []) ≡ false) × (has_byte newline path ≡ false)

-- A branch name does not end in white space.
abbrev pub EndsDark : Entry → Type 0
EndsDark (on_branch path head branch) = starts_dark (reverse branch) ≡ true
EndsDark _ = Unit
