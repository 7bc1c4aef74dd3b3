-- ===== src/Base/Text/Laws.antt =====
-- Laws of the text functions.
use Prim.Native.Nat.{ℕ}
use mathlib.Core.Path.{◌≡◌, refl, ap, sym, ◌∙◌}
use mathlib.Core.Logic.{◌↔◌, inl, inr}
use mathlib.Core.Bool.{Bool, true, false, ◌||◌, not}
use mathlib.Core.Option.{none, some}
use mathlib.Core.List.{[], ◌∷◌, ◌++◌, reverse, reverse-reverse, reverse-append, append_cancel_right}
use native.Mathlib.Omega.{arith}
use wtp.Base.Tests.{Option-cases}
use wtp.Base.Text.{
  Str, ◌==◌, cut_prefix, trim_prefix, trim_suffix, cut, contains, has_byte, cut_byte, after_last,
  trim_left, trim_space, split_byte, is_space,
}

pub eq_iff : (s t : Str) → (s == t ≡ true) ↔ (s ≡ t)
unfolding ◌==◌
eq_iff [] [] = (λ _. refl, λ _. refl)
eq_iff [] (b ∷ t) = (λ h. cc, λ h. cc)
eq_iff (a ∷ s) [] = (λ h. cc, λ h. cc)
eq_iff (a ∷ s) (b ∷ t) = ground (arith, eq_iff s t)

pub eq_refl : (s : Str) → (s == s) ≡ true
eq_refl s = (eq_iff s s).1 refl

pub cut_prefix-append : (p s : Str) → cut_prefix p (p ++ s) ≡ some s
unfolding cut_prefix
cut_prefix-append [] s = refl
cut_prefix-append (a ∷ p) s = ground (arith, cut_prefix-append p s)

pub cut_prefix-eq-some : (p s r : Str) → cut_prefix p s ≡ some r → s ≡ p ++ r
unfolding cut_prefix
cut_prefix-eq-some [] s r h = cc
cut_prefix-eq-some (a ∷ p) [] r h = cc
cut_prefix-eq-some (a ∷ p) (b ∷ s) r h = ground (arith, cut_prefix-eq-some p s r)

pub cut_byte-append :
    (c : ℕ) (s t : Str) → has_byte c s ≡ false → cut_byte c (s ++ c ∷ t) ≡ some (s, t)
unfolding cut_byte has_byte
cut_byte-append c [] t h = ground arith
cut_byte-append c (b ∷ s) t h = ground (arith, cut_byte-append c s t)

pub cut_byte-eq-none : (c : ℕ) (s : Str) → has_byte c s ≡ false → cut_byte c s ≡ none
unfolding cut_byte has_byte
cut_byte-eq-none c [] h = refl
cut_byte-eq-none c (b ∷ s) h = ground (arith, cut_byte-eq-none c s)

pub cut_byte-eq-some :
    (c : ℕ) (s a b : Str) → cut_byte c s ≡ some (a, b) → (has_byte c a ≡ false) × (s ≡ a ++ c ∷ b)
unfolding cut_byte has_byte
cut_byte-eq-some c [] a b h = cc
cut_byte-eq-some c (x ∷ s) a b h = elim (Option-cases (cut_byte c s)) [
  | inl e ↦ ground (arith, e)
  | inr ((u, v), e) ↦ ground (arith, cut_byte-eq-some c s u v e)
]

pub trim_suffix-append : (p s : Str) → trim_suffix p (s ++ p) ≡ s
unfolding trim_suffix trim_prefix
trim_suffix-append p s =
    rw (reverse-append s p, cut_prefix-append (reverse p) (reverse s), reverse-reverse)

pub trim_prefix-append : (p s : Str) → trim_prefix p (p ++ s) ≡ s
unfolding trim_prefix
trim_prefix-append p s = rw cut_prefix-append

pub has_byte-append : (c : ℕ) (s t : Str) → has_byte c (s ++ t) ≡ (has_byte c s || has_byte c t)
unfolding has_byte
has_byte-append c [] t = refl
has_byte-append c (b ∷ s) t = ground (arith, has_byte-append c s t)

pub has_byte-append_cons : (c : ℕ) (s t : Str) → has_byte c (s ++ c ∷ t) ≡ true
unfolding has_byte
has_byte-append_cons c [] t = ground arith
has_byte-append_cons c (b ∷ s) t = ground (arith, has_byte-append_cons c s t)

pub after_last_self : (c : ℕ) (s : Str) → has_byte c s ≡ false → after_last c s ≡ s
unfolding after_last has_byte
after_last_self c [] h = refl
after_last_self c (b ∷ s) h = ground arith

pub after_last-append : (c : ℕ) (s t : Str) → has_byte c t ≡ false → after_last c (s ++ c ∷ t) ≡ t
unfolding after_last has_byte
after_last-append c [] t h = ground arith
after_last-append c (b ∷ s) t h =
    ground (arith, after_last-append c s t, has_byte-append_cons c s t)

-- Two texts that are put together around `c` are told apart by what stands behind its last place.
pub split_last :
    (c : ℕ) (a b s t : Str)
    → has_byte c b ≡ false
    → has_byte c t ≡ false
    → a ++ c ∷ b ≡ s ++ c ∷ t
    → (a ≡ s) × (b ≡ t)
split_last c a b s t hb ht e =
    let behind : b ≡ t =
      sym (after_last-append c a b hb) ∙ ap (after_last c) e ∙ after_last-append c s t ht in
    (append_cancel_right a s (c ∷ b) (e ∙ ap (λ (x : Str). s ++ c ∷ x) (sym behind)), behind)

-- ... and by what stands before its first.
pub split_first :
    (c : ℕ) (a b s t : Str)
    → has_byte c a ≡ false
    → has_byte c s ≡ false
    → a ++ c ∷ b ≡ s ++ c ∷ t
    → (a ≡ s) × (b ≡ t)
split_first c a b s t ha hs e =
    ground (arith, cut_byte-append c a b ha, cut_byte-append c s t hs, ap (cut_byte c) e)

pub contains-append_cons : (c : ℕ) (s t : Str) → contains (c ∷ []) (s ++ c ∷ t) ≡ true
unfolding contains cut cut_prefix
contains-append_cons c [] t = ground arith
contains-append_cons c (b ∷ s) t = ground (arith, contains-append_cons c s t)

pub eq_nil-append_cons : (s : Str) (c : ℕ) (t : Str) → ((s ++ c ∷ t) == []) ≡ false
unfolding ◌==◌
eq_nil-append_cons [] c t = refl
eq_nil-append_cons (b ∷ s) c t = refl

-- The text does not begin with white space.
abbrev pub starts_dark : Str → Bool
starts_dark [] = true
starts_dark (c ∷ s) = not (is_space c)

pub trim_left_self : (s : Str) → starts_dark s ≡ true → trim_left s ≡ s
unfolding trim_left
trim_left_self [] h = refl
trim_left_self (c ∷ s) h = ground arith

pub starts_dark-append :
    (s t : Str) → starts_dark s ≡ true → starts_dark t ≡ true → starts_dark (s ++ t) ≡ true
starts_dark-append [] t hs ht = ht
starts_dark-append (c ∷ s) t hs ht = hs

-- Text that neither begins nor ends with white space comes back from two line breaks.
pub trim_space-pad :
    (s : Str)
    → trim_left (s ++ 10 ∷ 10 ∷ []) ≡ s ++ 10 ∷ 10 ∷ []
    → starts_dark (reverse s) ≡ true
    → trim_space (s ++ 10 ∷ 10 ∷ []) ≡ s
unfolding trim_space
trim_space-pad s front back =
    rw (front, reverse-append s (10 ∷ 10 ∷ []))
      (ap reverse (trim_left_self (reverse s) back) ∙ reverse-reverse s)

pub split_byte_self : (c : ℕ) (s : Str) → has_byte c s ≡ false → split_byte c s ≡ s ∷ []
unfolding split_byte has_byte
split_byte_self c [] h = refl
split_byte_self c (b ∷ s) h = ground (arith, split_byte_self c s)

pub split_byte-append :
    (c : ℕ) (s t : Str) → has_byte c s ≡ false → split_byte c (s ++ c ∷ t) ≡ s ∷ split_byte c t
unfolding split_byte has_byte
split_byte-append c [] t h = ground arith
split_byte-append c (b ∷ s) t h = ground (arith, split_byte-append c s t)
