-- ===== src/Cli/List/Rows/Width.antt =====
-- The width of a text that `truncateStr` has cut.
use wtp.Base.{
  ℕ, zero, suc, ◌+◌, ◌-◌, ◌/◌, ◌≤◌, ◌≡◌, ◌∙◌, ◌||◌, inl, inr, Bool-cases, [], ◌∷◌, ◌++◌,
  if◌then◌else◌, leb, nat_eq, arith,
}
use wtp.Base.Lists.{length, length-append}
use wtp.Base.Text.{Str}
use wtp.Cli.List.Rows.{take, drop, ellipsis, truncate_str}

abbrev pub min : ℕ → ℕ → ℕ
min a b = if leb a b then a else b

length-take : (n : ℕ) (s : Str) → length (take n s) ≡ min n (length s)
unfolding take
length-take zero s = ground arith
length-take (suc n) [] = ground arith
length-take (suc n) (c ∷ s) = ground (arith, length-take n s)

length-drop : (n : ℕ) (s : Str) → length (drop n s) ≡ length s - n
unfolding drop
length-drop zero s = ground arith
length-drop (suc n) [] = ground arith
length-drop (suc n) (c ∷ s) = ground (arith, length-drop n s)

length_cut :
    (start end : ℕ) (runes : Str)
    → start ≤ length runes
    → end ≤ length runes
    → length (take start runes ++ (ellipsis ++ drop (length runes - end) runes)) ≡ start + 3 + end
length_cut start end runes hs he = ground (
  arith,
  length-append (take start runes) (ellipsis ++ drop (length runes - end) runes),
  length-take start runes,
  length-drop (length runes - end) runes,
)

-- A text is cut to the width exactly, unless it fits; a width of 0 is no width.
pub length-truncate_str :
    (runes : Str) (max_width : ℕ)
    → length (truncate_str runes max_width)
      ≡ (if nat_eq max_width 0 then length runes else min max_width (length runes))
unfolding truncate_str
length-truncate_str runes max_width =
    elim (Bool-cases (nat_eq max_width 0 || leb (length runes) max_width)) [
      | inl fits ↦ rw fits (ground (arith, fits))
      | inr long ↦ elim (Bool-cases (leb max_width 3)) [
        | inl narrow ↦ rw (long, narrow) (ground (arith, length-take max_width runes))
        | inr wide ↦
            rw (long, wide)
              (length_cut ((max_width - 3) / 3) (max_width - 3 - (max_width - 3) / 3) runes
                  (ground arith) (ground arith)
                ∙ ground arith)
      ]
    ]
