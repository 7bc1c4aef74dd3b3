-- ===== src/FilePath/Rooted.antt =====
-- A cleaned absolute path is written from plain segments: no `.`, `..` or empty one is left.
use mathlib.Core.List.{reverse, reverse-cons}
use wtp.Base.{ℕ, ◌≡◌, refl, true, false, ◌||◌, List, [], ◌∷◌, arith, inl, inr}
use wtp.Base.{Bool-cases, nat_eq}
use wtp.Base.Text.{Str, ◌==◌, has_byte, split_byte}
use wtp.Base.Lists.{All, All-append}
use wtp.FilePath.{slash, dot, dots, is_abs, go_up, clean_parts, clean}
use wtp.FilePath.Plain.{IsSegment, absolute}

abbrev NoSlash : Str → Type 0
NoSlash x = has_byte slash x ≡ false

-- One byte more in front of the first piece.
put_first-NoSlash :
    (c : ℕ) (pieces : List Str)
    → nat_eq c slash ≡ false
    → All NoSlash pieces
    → All NoSlash (elim pieces [ [] ↦ (c ∷ []) ∷ [] | x ∷ xs ↦ (c ∷ x) ∷ xs ])
unfolding has_byte
put_first-NoSlash c [] n h = (ground (arith, n), tt)
put_first-NoSlash c (x ∷ xs) n (h, hs) = (ground (arith, n, h), hs)

pieces-NoSlash : (s : Str) → All NoSlash (split_byte slash s)
unfolding split_byte has_byte
pieces-NoSlash [] = (refl, tt)
pieces-NoSlash (c ∷ s) = elim (Bool-cases (nat_eq c slash)) [
  | inl e ↦ rw e (refl, pieces-NoSlash s)
  | inr e ↦ rw e (put_first-NoSlash c (split_byte slash s) e (pieces-NoSlash s))
]

All-reverse : (xs : List Str) → All IsSegment xs → All IsSegment (reverse xs)
All-reverse [] h = tt
All-reverse (x ∷ xs) (h, hs) =
    rw (reverse-cons x xs) (All-append IsSegment (reverse xs) (x ∷ []) (All-reverse xs hs) (h, tt))

go_up-IsSegment : (kept : List Str) → All IsSegment kept → All IsSegment (go_up true kept)
unfolding go_up
go_up-IsSegment [] h = tt
go_up-IsSegment (x ∷ kept) (h, hs) = rw h.no_dots hs

clean_parts-IsSegment :
    (kept parts : List Str)
    → All IsSegment kept
    → All NoSlash parts
    → All IsSegment (clean_parts true kept parts)
unfolding clean_parts
clean_parts-IsSegment kept [] h n = All-reverse kept h
clean_parts-IsSegment kept (x ∷ parts) h (n, ns) = elim (Bool-cases (x == [] || x == dot)) [
  | inl e ↦ rw e (clean_parts-IsSegment kept parts h ns)
  | inr e ↦ elim (Bool-cases (x == dots)) [
    | inl u ↦ rw (e, u) (clean_parts-IsSegment (go_up true kept) parts (go_up-IsSegment kept h) ns)
    | inr u ↦
        let segment : IsSegment x = record {
          given = ground (arith, e);
          no_dot = ground (arith, e);
          no_dots = u;
          no_slash = n;
        } in
        rw (e, u) (clean_parts-IsSegment (x ∷ kept) parts (segment, h) ns)
  ]
]

pub clean-absolute_segments :
    (path : Str)
    → is_abs path ≡ true
    → (xs : List Str) × All IsSegment xs × (clean path ≡ absolute xs)
unfolding clean absolute ◌==◌ is_abs
clean-absolute_segments [] h = cc
clean-absolute_segments (c ∷ path) h =
    let parts = split_byte slash (c ∷ path) in
    (
      clean_parts true [] parts,
      clean_parts-IsSegment [] parts tt (pieces-NoSlash (c ∷ path)),
      rw h refl,
    )
