-- ===== src/Git/Porcelain/RoundTrip.antt =====
-- The round trip of a printed listing through `ParseWorktreeListOutput`.
use mathlib.Core.List.{append_assoc, append-nil, map-append}
use wtp.Base.{◌≡◌, refl, ap, ◌∙◌, Bool, true, false, List, [], ◌∷◌, ◌++◌, map, arith}
use wtp.Base.Text.{Str, ◌==◌, split_byte, trim_space, trim_left, has_prefix, trim_prefix}
use wtp.Base.Text.Laws.{trim_space-pad}
use wtp.Base.Lists.{All}
use wtp.Git.{Worktree, ListState, no_worktree, complete, read_lines, start, newline}
use wtp.Git.{parse_worktree_list_output, mark_main}
use wtp.Git.Porcelain.{Entry, on_branch, detached, bare, entry_lines, entries_lines, unlines}
use wtp.Git.Porcelain.{porcelain, listed, IsPrintable, EndsDark}
use wtp.Git.Porcelain.Lines.{last_line, entry_lines-split, front_lines, porcelain-split}
use wtp.Git.Porcelain.Lines.{porcelain_dark, last_line_dark, entry_IsLine, front_lines-IsLine}
use wtp.Git.Porcelain.Lines.{split_unlines}

read_entry :
    (e : Entry) (rest : List Str) (ws : List Worktree) (first : Bool)
    → read_lines
        (entry_lines e ++ rest)
        (record { worktrees = ws; current = no_worktree; is_first = first })
      ≡ read_lines rest (record { worktrees = ws; current = listed e; is_first = first })
unfolding read_lines ◌==◌ has_prefix trim_prefix
read_entry (on_branch path head branch) rest ws first = refl
read_entry (detached path head) rest ws first = refl
read_entry (bare path) rest ws first = refl

-- The first worktree of a listing is the main one if `first` is set.
abbrev mark : Bool → List Worktree → List Worktree
mark first [] = []
mark first (w ∷ ws) = record w { is_main = first } ∷ ws

abbrev scanned : List Worktree → Bool → ListState
scanned ws first = record { worktrees = ws; current = no_worktree; is_first = first }

abbrev more : Bool → List Entry → Bool
more first [] = first
more first (e ∷ es) = false

complete-listed :
    (e : Entry) (ws : List Worktree) (first : Bool)
    → IsPrintable e
    → complete (record { worktrees = ws; current = listed e; is_first = first })
      ≡ scanned (ws ++ mark first (listed e ∷ [])) false
unfolding complete
complete-listed (on_branch path head branch) ws first h = ground (arith, h.0)
complete-listed (detached path head) ws first h = ground (arith, h.0)
complete-listed (bare path) ws first h = ground (arith, h.0)

read_blank :
    (rest : List Str) (st : ListState) → read_lines ([] ∷ rest) st ≡ read_lines rest (complete st)
unfolding read_lines ◌==◌
read_blank rest st = refl

mark_linked : (es : List Entry) → mark false (map listed es) ≡ map listed es
mark_linked [] = refl
mark_linked (on_branch path head branch ∷ es) = refl
mark_linked (detached path head ∷ es) = refl
mark_linked (bare path ∷ es) = refl

more_none : (es : List Entry) → more false es ≡ false
more_none [] = refl
more_none (e ∷ es) = refl

read_entries :
    (es : List Entry) (rest : List Str) (ws : List Worktree) (first : Bool)
    → All IsPrintable es
    → read_lines (entries_lines es ++ rest) (scanned ws first)
      ≡ read_lines rest (scanned (ws ++ mark first (map listed es)) (more first es))
read_entries [] rest ws first h = rw append-nil
read_entries (e ∷ es) rest ws first h =
    let regroup : (entry_lines e ++ ([] ∷ entries_lines es)) ++ rest
        ≡ entry_lines e ++ ([] ∷ (entries_lines es ++ rest)) =
      append_assoc (entry_lines e) _ rest in
    let one = read_entry e ([] ∷ (entries_lines es ++ rest)) ws first in
    let two =
      read_blank (entries_lines es ++ rest)
        (record { worktrees = ws; current = listed e; is_first = first }) in
    let three = ap (read_lines (entries_lines es ++ rest)) (complete-listed e ws first h.0) in
    let four = read_entries es rest (ws ++ mark first (listed e ∷ [])) false h.1 in
    ap (λ (l : List Str). read_lines l (scanned ws first)) regroup
    ∙ one
    ∙ two
    ∙ three
    ∙ four
    ∙ rw (mark_linked es, more_none es) (rw append_assoc)

-- The worktrees that are found when the lines have been read from `st`.
abbrev finish : List Str → ListState → List Worktree
finish ls st = (complete (read_lines ls st)).worktrees

marked_all :
    (es : List Entry) (last : Entry)
    → mark true (map listed es) ++ mark (more true es) (listed last ∷ [])
      ≡ mark_main (map listed (es ++ last ∷ []))
unfolding mark_main
marked_all [] last = refl
marked_all (e ∷ es) last = rw (map-append listed es (last ∷ []), mark_linked (last ∷ []))

finish_entries :
    (es : List Entry) (last : Entry)
    → All IsPrintable es
    → IsPrintable last
    → finish (front_lines es last ++ last_line last ∷ []) start
      ≡ mark_main (map listed (es ++ last ∷ []))
unfolding read_lines
finish_entries es last h hl =
    let ws = [] ++ mark true (map listed es) in
    let regroup : front_lines es last ++ last_line last ∷ []
        ≡ entries_lines es ++ (entry_lines last ++ []) =
      append_assoc (entries_lines es) _ _ ∙ rw (entry_lines-split last, append-nil) in
    ap (λ (ls : List Str). finish ls start) regroup
    ∙ ap (λ (st : ListState). (complete st).worktrees)
        (read_entries es (entry_lines last ++ []) [] true h)
    ∙ ap (λ (st : ListState). (complete st).worktrees) (read_entry last [] ws (more true es))
    ∙ ap (λ (st : ListState). st.worktrees) (complete-listed last ws (more true es) hl)
    ∙ marked_all es last

-- What git prints for a list of at least one worktree, each on a branch, detached or bare and without
-- the lines `locked` and `prunable`, is read as that list with the first one marked as the main
-- worktree. A detached one gets the branch "detached". The paths are not empty, no field holds a line
-- break, and if the last one is on a branch, its name is not empty and does not end in white space.
pub parse_worktree_list_output-porcelain :
    (es : List Entry) (last : Entry)
    → All IsPrintable es
    → IsPrintable last
    → EndsDark last
    → parse_worktree_list_output (porcelain (es ++ last ∷ []))
      ≡ mark_main (map listed (es ++ last ∷ []))
unfolding parse_worktree_list_output
parse_worktree_list_output-porcelain es last h hl dark =
    let text = unlines (front_lines es last) ++ last_line last in
    let front : trim_left (text ++ newline ∷ newline ∷ []) ≡ text ++ newline ∷ newline ∷ [] =
      rw (porcelain-split es last) at (porcelain_dark (es ++ last ∷ [])) in
    let trimmed =
      trim_space-pad text front (last_line_dark (unlines (front_lines es last)) last dark) in
    let lines =
      split_unlines (front_lines es last) (last_line last) (front_lines-IsLine es last h hl)
        (entry_IsLine last hl).1 in
    ap (λ (t : Str). finish (split_byte newline (trim_space t)) start) (porcelain-split es last)
    ∙ ap (λ (t : Str). finish (split_byte newline t) start) trimmed
    ∙ ap (λ (ls : List Str). finish ls start) lines
    ∙ finish_entries es last h hl
