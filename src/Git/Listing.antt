-- ===== src/Git/Listing.antt =====
-- What `ParseWorktreeListOutput` returns on any text.
use wtp.Base.{
  ◌≡◌, ◌≢◌, refl, sym, ◌∙◌, true, false, List, [], ◌∷◌, ◌++◌, arith, inl, inr, Bool-cases,
}
use wtp.Base.Text.{Str, ◌==◌, split_byte, trim_space}
use wtp.Base.Text.Laws.{eq_iff}
use wtp.Base.Lists.{All, All-append, no_items}
use wtp.Git.{Worktree, ListState, complete, read_line, read_lines, start, newline}
use wtp.Git.{parse_worktree_list_output}

-- A linked worktree, which has a path.
abbrev pub IsLinked : Worktree → Type 0
IsLinked w = (w.path ≢ []) × (w.is_main ≡ false)

-- The first worktree is the main one, no other is, and each has a path.
abbrev pub IsListing : List Worktree → Type 0
IsListing [] = Unit
IsListing (w ∷ ws) = (w.path ≢ []) × (w.is_main ≡ true) × All IsLinked ws

-- The main worktree is yet to come exactly if none has come.
record IsScan (st : ListState) : Type 0 where
  listing : IsListing st.worktrees
  unmarked : st.current.is_main ≡ false
  first : st.is_first ≡ no_items st.worktrees

IsListing-append :
    (ws : List Worktree) (w : Worktree)
    → IsListing ws
    → w.path ≢ []
    → w.is_main ≡ no_items ws
    → IsListing (ws ++ w ∷ [])
IsListing-append [] w h p m = (p, m, tt)
IsListing-append (v ∷ ws) w (pv, mv, all) p m =
    (pv, mv, All-append IsLinked ws (w ∷ []) all ((p, m), tt))

no_items-append : (ws : List Worktree) (w : Worktree) → no_items (ws ++ w ∷ []) ≡ false
no_items-append [] w = refl
no_items-append (v ∷ ws) w = refl

complete-IsScan : (st : ListState) → IsScan st → IsScan (complete st)
unfolding complete
complete-IsScan st h = elim (Bool-cases (st.current.path == [])) [
  | inl e ↦ rw e h
  | inr e ↦ rw e (record {
    listing =
        IsListing-append st.worktrees _ h.listing (λ p. cc (e, (eq_iff _ _).1 p)) (ground arith);
    unmarked = refl;
    first = sym (no_items-append st.worktrees _);
  })
]

read_line-is_main : (line : Str) (w : Worktree) → (read_line line w).is_main ≡ w.is_main
unfolding read_line
read_line-is_main line w = ground arith

read_lines-IsScan : (lines : List Str) (st : ListState) → IsScan st → IsScan (read_lines lines st)
unfolding read_lines
read_lines-IsScan [] st h = h
read_lines-IsScan (line ∷ lines) st h = elim (Bool-cases (line == [])) [
  | inl e ↦ rw e (read_lines-IsScan lines (complete st) (complete-IsScan st h))
  | inr e ↦ rw e (
      read_lines-IsScan lines (record st { current = read_line line st.current })
        (record {
          listing = h.listing;
          unmarked = read_line-is_main line st.current ∙ h.unmarked;
          first = h.first;
        }))
]

-- Of the worktrees that are read from any text at all the first one is the main one and no other
-- is, and all have a path.
parse_worktree_list_output-IsListing :
    (output : Str) → IsListing (parse_worktree_list_output output)
unfolding parse_worktree_list_output
parse_worktree_list_output-IsListing output =
    (complete-IsScan _ (
      read_lines-IsScan (split_byte newline (trim_space output)) start
        (record { listing = tt; unmarked = refl; first = refl }))).listing
