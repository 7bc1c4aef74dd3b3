-- ===== src/Git/Porcelain/Lines.antt =====
-- The lines of a printed listing, and what `TrimSpace` and `Split` make of it.
use mathlib.Core.List.{reverse, reverse-append, append_assoc}
use wtp.Base.{◌≡◌, refl, sym, true, false, List, [], ◌∷◌, ◌++◌}
use wtp.Base.Text.{Str, str, has_byte, split_byte, trim_left}
use wtp.Base.Text.Laws.{starts_dark, starts_dark-append, split_byte-append, split_byte_self}
use wtp.Base.Lists.{All, All-append}
use wtp.Git.{newline}
use wtp.Git.Porcelain.{Entry, on_branch, detached, bare, entry_lines, entries_lines, unlines}
use wtp.Git.Porcelain.{porcelain, IsPrintable, EndsDark}

-- The lines of an entry before its last one, and the last one.
abbrev pub init_lines : Entry → List Str
init_lines (on_branch path head branch) = (str "worktree " ++ path) ∷ (str "HEAD " ++ head) ∷ []
init_lines (detached path head) = (str "worktree " ++ path) ∷ (str "HEAD " ++ head) ∷ []
init_lines (bare path) = (str "worktree " ++ path) ∷ []

abbrev pub last_line : Entry → Str
last_line (on_branch path head branch) = str "branch refs/heads/" ++ branch
last_line (detached path head) = str "detached"
last_line (bare path) = str "bare"

pub entry_lines-split : (e : Entry) → entry_lines e ≡ init_lines e ++ last_line e ∷ []
entry_lines-split (on_branch path head branch) = refl
entry_lines-split (detached path head) = refl
entry_lines-split (bare path) = refl

-- The lines before the last one that is not blank, of a listing that ends with `last`.
abbrev pub front_lines : List Entry → Entry → List Str
front_lines es last = entries_lines es ++ init_lines last

unlines-append : (xs ys : List Str) → unlines (xs ++ ys) ≡ unlines xs ++ unlines ys
unlines-append [] ys = refl
unlines-append (x ∷ xs) ys = rw (unlines-append xs ys) (sym (append_assoc x _ _))

entries_lines-append :
    (es : List Entry) (last : Entry)
    → entries_lines (es ++ last ∷ []) ≡ front_lines es last ++ (last_line last ∷ [] ∷ [])
entries_lines-append [] last = rw (entry_lines-split last) (append_assoc (init_lines last) _ _)
entries_lines-append (e ∷ es) last = rw (entries_lines-append es last) (simp append_assoc)

pub porcelain-split :
    (es : List Entry) (last : Entry)
    → porcelain (es ++ last ∷ [])
      ≡ (unlines (front_lines es last) ++ last_line last) ++ newline ∷ newline ∷ []
unfolding porcelain
porcelain-split es last =
    rw (entries_lines-append es last, unlines-append (front_lines es last))
      (sym (append_assoc (unlines (front_lines es last)) _ _))

pub porcelain_dark : (es : List Entry) → trim_left (porcelain es) ≡ porcelain es
unfolding porcelain trim_left
porcelain_dark [] = refl
porcelain_dark (on_branch path head branch ∷ es) = refl
porcelain_dark (detached path head ∷ es) = refl
porcelain_dark (bare path ∷ es) = refl

pub last_line_dark :
    (text : Str) (last : Entry)
    → EndsDark last
    → starts_dark (reverse (text ++ last_line last)) ≡ true
last_line_dark text (on_branch path head branch) h =
    rw
      (
        reverse-append text (str "branch refs/heads/" ++ branch),
        reverse-append (str "branch refs/heads/") branch,
        append_assoc,
      )
      (starts_dark-append (reverse branch) _ h refl)
last_line_dark text (detached path head) h = rw (reverse-append text (str "detached")) refl
last_line_dark text (bare path) h = rw (reverse-append text (str "bare")) refl

abbrev pub IsLine : Str → Type 0
IsLine l = has_byte newline l ≡ false

pub entry_IsLine : (e : Entry) → IsPrintable e → All IsLine (init_lines e) × IsLine (last_line e)
unfolding has_byte
entry_IsLine (on_branch path head branch) (_, p, h, b) = ((p, (h, tt)), b)
entry_IsLine (detached path head) (_, p, h) = ((p, (h, tt)), refl)
entry_IsLine (bare path) (_, p) = ((p, tt), refl)

pub front_lines-IsLine :
    (es : List Entry) (last : Entry)
    → All IsPrintable es
    → IsPrintable last
    → All IsLine (front_lines es last)
unfolding has_byte
front_lines-IsLine [] last h hl = (entry_IsLine last hl).0
front_lines-IsLine (e ∷ es) last (h, hs) hl =
    let (front, end) = entry_IsLine e h in
    let rest = front_lines-IsLine es last hs hl in
    rw (entry_lines-split e, append_assoc)
      (rw append_assoc (All-append IsLine (init_lines e) _ front (end, (refl, rest))))

pub split_unlines :
    (ls : List Str) (l : Str)
    → All IsLine ls
    → IsLine l
    → split_byte newline (unlines ls ++ l) ≡ ls ++ l ∷ []
split_unlines [] l h hl = split_byte_self newline l hl
split_unlines (x ∷ ls) l (h, hs) hl =
    rw (append_assoc, split_byte-append newline x (unlines ls ++ l) h, split_unlines ls l hs hl)
