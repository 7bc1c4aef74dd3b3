-- ===== src/Base/Text.antt =====
-- Go strings as lists of bytes, and the functions of Go's package `strings` that the program calls.
use Prim.Native.Nat.{ℕ, zero, suc, ◌+◌, ◌/◌, ◌%◌}
use Prim.Native.Char.{code}
use Prim.Native.String.{String}
use mathlib.Core.Path.{◌≡◌, refl}
use mathlib.Core.Logic.{◌↔◌}
use mathlib.Core.Bool.{Bool, true, false, ◌&&◌, ◌||◌}
use mathlib.Core.Option.{Option, none, some}
use mathlib.Core.List.{List, [], ◌∷◌, ◌++◌, map, reverse}
use native.Mathlib.Omega.{arith}
use wtp.Base.Tests.{nat_eq, leb, if◌then◌else◌}
pub mod Laws
pub mod Trim
pub mod Search

abbrev pub Str : Type 0
Str = List ℕ

-- The bytes of an ASCII literal.
abbrev pub str : String → Str
str String.[] = []
str (String.◌∷◌ c s) = code c ∷ str s

infix 50 ◌==◌
unfoldable pub ◌==◌ : Str → Str → Bool
[] == [] = true
[] == (_ ∷ _) = false
(_ ∷ _) == [] = false
(a ∷ s) == (b ∷ t) = nat_eq a b && s == t

-- `strings.CutPrefix(s, p)`, with `none` for "not found"; the prefix comes first.
unfoldable pub cut_prefix : Str → Str → Option Str
cut_prefix [] s = some s
cut_prefix (_ ∷ _) [] = none
cut_prefix (a ∷ p) (b ∷ s) = if nat_eq a b then cut_prefix p s else none

abbrev is_found : Option Str → Bool
is_found none = false
is_found (some _) = true

abbrev found_or : Str → Option Str → Str
found_or s none = s
found_or s (some r) = r

-- `strings.HasPrefix(s, p)`
unfoldable pub has_prefix : Str → Str → Bool
unfolding cut_prefix
has_prefix p s = is_found (cut_prefix p s)

-- `strings.TrimPrefix(s, p)`
unfoldable pub trim_prefix : Str → Str → Str
unfolding cut_prefix
trim_prefix p s = found_or s (cut_prefix p s)

-- `strings.TrimSuffix(s, p)`
unfoldable pub trim_suffix : Str → Str → Str
unfolding trim_prefix
trim_suffix p s = reverse (trim_prefix (reverse p) (reverse s))

-- `strings.HasSuffix(s, p)`
unfoldable pub has_suffix : Str → Str → Bool
unfolding has_prefix
has_suffix p s = has_prefix (reverse p) (reverse s)

-- `strings.Cut(s, sep)`: the text before and after the first `sep`.
unfoldable pub cut : Str → Str → Option (Str × Str)
unfolding cut_prefix
cut sep [] = elim (cut_prefix sep []) [ none ↦ none | some r ↦ some ([], r) ]
cut sep (c ∷ s) =
    let rest = cut sep s in
    elim (cut_prefix sep (c ∷ s)) [
      | some r ↦ some ([], r)
      | none ↦ elim rest [ none ↦ none | some (a, b) ↦ some (c ∷ a, b) ]
    ]

-- `strings.Contains(s, sub)`
unfoldable pub contains : Str → Str → Bool
unfolding cut
contains sub s = elim (cut sub s) [ none ↦ false | some _ ↦ true ]

-- What stands before and after the first byte `c`.
unfoldable pub cut_byte : ℕ → Str → Option (Str × Str)
cut_byte c [] = none
cut_byte c (b ∷ s) =
    let rest = cut_byte c s in
    if nat_eq b c then some ([], s) else elim rest [ none ↦ none | some (x, y) ↦ some (b ∷ x, y) ]

-- `strings.Split(s, c)` for a separator of one byte: never empty.
unfoldable pub split_byte : ℕ → Str → List Str
split_byte c [] = [] ∷ []
split_byte c (b ∷ s) =
    let rest = split_byte c s in
    if nat_eq b c then [] ∷ rest else elim rest [ [] ↦ (b ∷ []) ∷ [] | x ∷ xs ↦ (b ∷ x) ∷ xs ]

-- `strings.SplitN(s, c, n)` for a separator of one byte.
unfoldable pub split_n : ℕ → ℕ → Str → List Str
unfolding cut_byte
split_n zero c s = []
split_n (suc zero) c s = s ∷ []
split_n (suc (suc n)) c s = elim (cut_byte c s) [
  | none ↦ s ∷ []
  | some (a, b) ↦ a ∷ split_n (suc n) c b
]

unfoldable pub has_byte : ℕ → Str → Bool
has_byte c [] = false
has_byte c (b ∷ s) = nat_eq b c || has_byte c s

-- The text after the last `c`, or all of it: what `s[strings.LastIndex(s, c)+1:]` is.
unfoldable pub after_last : ℕ → Str → Str
unfolding has_byte
after_last c [] = []
after_last c (b ∷ s) =
    let rest = after_last c s in if has_byte c s then rest else if nat_eq b c then s else b ∷ s

-- `\t`, `\n`, `\v`, `\f`, `\r` and the blank: `unicode.IsSpace` on ASCII.
abbrev pub is_space : ℕ → Bool
is_space c = nat_eq c 32 || (leb 9 c && leb c 13)

unfoldable pub trim_left : Str → Str
trim_left [] = []
trim_left (c ∷ s) = let rest = trim_left s in if is_space c then rest else c ∷ s

-- `strings.TrimSpace(s)`
unfoldable pub trim_space : Str → Str
unfolding trim_left
trim_space s = reverse (trim_left (reverse (trim_left s)))

abbrev lower_byte : ℕ → ℕ
lower_byte c = if leb 65 c && leb c 90 then c + 32 else c

-- `strings.ToLower(s)` on ASCII
unfoldable pub to_lower : Str → Str
to_lower = map lower_byte

-- `strconv.Itoa(n)` and `%d` at a natural number, by the digits of `n` from the last.
digits_onto : ℕ → ℕ → Str → Str
digits_onto zero n acc = acc
digits_onto (suc f) n acc =
    let rest = digits_onto f (n / 10) ((48 + n % 10) ∷ acc) in
    if leb n 9 then (48 + n) ∷ acc else rest

unfoldable pub itoa : ℕ → Str
unfolding digits_onto
itoa n = digits_onto (suc n) n []
