-- ===== src/Base/Text/Trim.antt =====
-- What `strings.TrimSpace` leaves of words and of text that begins and ends with one.
use mathlib.Core.List.{reverse, reverse-append, reverse-reverse}
use mathlib.Core.Path.{◌≡◌, refl, ap, ◌∙◌}
use mathlib.Core.Bool.{Bool, true, false, not, ◌&&◌}
use mathlib.Core.List.{[], ◌∷◌, ◌++◌}
use native.Mathlib.Omega.{arith}
use wtp.Base.Text.{Str, ◌==◌, has_byte, trim_space, trim_left, is_space}
use wtp.Base.Text.Laws.{starts_dark, trim_left_self, eq_nil-append_cons}

-- No white space anywhere, and at least one byte.
abbrev pub all_dark : Str → Bool
all_dark [] = true
all_dark (c ∷ s) = not (is_space c) && all_dark s

pub record IsWord (s : Str) : Type 0 where
  pub given : (s == []) ≡ false
  pub dark : all_dark s ≡ true

pub all_dark-append : (s t : Str) → all_dark s ≡ true → all_dark t ≡ true → all_dark (s ++ t) ≡ true
all_dark-append [] t hs ht = ht
all_dark-append (c ∷ s) t hs ht = ground (arith, all_dark-append s t)

pub all_dark-reverse : (s : Str) → all_dark s ≡ true → all_dark (reverse s) ≡ true
all_dark-reverse [] h = refl
all_dark-reverse (c ∷ s) h =
    rw (reverse-append (c ∷ []) s)
      (all_dark-append (reverse s) (c ∷ []) (all_dark-reverse s (ground arith)) (ground arith))

pub all_dark_newline : (s : Str) → all_dark s ≡ true → has_byte 10 s ≡ false
unfolding has_byte
all_dark_newline [] h = refl
all_dark_newline (c ∷ s) h = ground (arith, all_dark_newline s)

pub starts_dark_front :
    (s t : Str) → (s == []) ≡ false → all_dark s ≡ true → starts_dark (s ++ t) ≡ true
unfolding ◌==◌
starts_dark_front [] t given dark = cc
starts_dark_front (c ∷ s) t given dark = ground arith

reverse_given : (s : Str) → (s == []) ≡ false → (reverse s == []) ≡ false
unfolding ◌==◌
reverse_given [] h = h
reverse_given (c ∷ s) h = rw (reverse-append (c ∷ []) s) (eq_nil-append_cons (reverse s) c [])

-- A text that begins with a word and ends with one stays under `TrimSpace`, with a line break or not.
pub ends_dark : (s word : Str) → IsWord word → starts_dark (reverse (s ++ word)) ≡ true
ends_dark s word w = rw (reverse-append s word) (
    starts_dark_front (reverse word) (reverse s) (reverse_given word w.given)
      (all_dark-reverse word w.dark))

pub trim_space_dark :
    (s : Str) → starts_dark s ≡ true → starts_dark (reverse s) ≡ true → trim_space s ≡ s
unfolding trim_space
trim_space_dark s front back =
    rw (trim_left_self s front) (ap reverse (trim_left_self (reverse s) back) ∙ reverse-reverse s)

starts_dark_line :
    (s t : Str) → (s == []) ≡ false → starts_dark s ≡ true → starts_dark (s ++ t) ≡ true
unfolding ◌==◌
starts_dark_line [] t given h = cc
starts_dark_line (c ∷ s) t given h = h

pub trim_space_line :
    (s : Str)
    → (s == []) ≡ false
    → starts_dark s ≡ true
    → starts_dark (reverse s) ≡ true
    → trim_space (s ++ 10 ∷ []) ≡ s
unfolding trim_space trim_left
trim_space_line s given front back =
    rw
      (trim_left_self (s ++ 10 ∷ []) (starts_dark_line s _ given front), reverse-append s (10 ∷ []))
      (ap reverse (trim_left_self (reverse s) back) ∙ reverse-reverse s)
