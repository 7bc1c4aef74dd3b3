-- ===== src/Base/Text/Search.antt =====
-- What `strings.Contains` finds.
use mathlib.Core.Path.{◌≡◌, refl}
use mathlib.Core.Logic.{inl, inr}
use mathlib.Core.Bool.{true}
use mathlib.Core.Option.{some}
use mathlib.Core.List.{[], ◌∷◌, ◌++◌}
use wtp.Base.Tests.{Option-cases}
use wtp.Base.Text.{Str, cut, cut_prefix, contains}
use wtp.Base.Text.Laws.{cut_prefix-append}

contains-cut : (p s : Str) (r : Str × Str) → cut p s ≡ some r → contains p s ≡ true
unfolding contains
contains-cut p s r h = rw (h, contains) refl

cut_front : (p c : Str) → (r : Str × Str) × (cut p (p ++ c) ≡ some r)
unfolding cut cut_prefix
cut_front [] [] = (([], []), refl)
cut_front [] (x ∷ c) = (([], x ∷ c), refl)
cut_front (x ∷ p) c = (([], c), rw (cut_prefix-append (x ∷ p) c, cut) refl)

cut_later :
    (p a s : Str) (r : Str × Str) → cut p s ≡ some r → (q : Str × Str) × (cut p (a ++ s) ≡ some q)
unfolding cut
cut_later p [] s r h = (r, h)
cut_later p (x ∷ a) s r h = elim (Option-cases (cut_prefix p (x ∷ (a ++ s)))) [
  | inr (rest, e) ↦ (([], rest), rw (e, cut) refl)
  | inl e ↦ let ((u, v), ih) = cut_later p a s r h in ((x ∷ u, v), rw (e, ih, cut) refl)
]

-- A text is found wherever it stands.
pub contains-append : (p a c : Str) → contains p (a ++ (p ++ c)) ≡ true
contains-append p a c =
    let (r, e) = cut_front p c in
    let (q, f) = cut_later p a (p ++ c) r e in contains-cut p (a ++ (p ++ c)) q f
