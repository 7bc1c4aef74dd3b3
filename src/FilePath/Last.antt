-- ===== src/FilePath/Last.antt =====
-- `filepath.Base` of an absolute path is its last segment.
use mathlib.Core.List.{reverse, reverse-append, reverse-reverse, reverse-cons, append_assoc}
use wtp.Base.{◌≡◌, refl, sym, ap, ◌∙◌, false, List, [], ◌∷◌, ◌++◌, arith}
use wtp.Base.Text.{Str, ◌==◌, has_byte}
use wtp.Base.Text.Laws.{after_last-append}
use wtp.FilePath.{slash, joined, base, drop_slashes}
use wtp.FilePath.Plain.{absolute}
use wtp.FilePath.Parent.{joined-append}

pub absolute_ends :
    (ys : List Str) (y : Str) → (r : Str) × (absolute (ys ++ y ∷ []) ≡ r ++ slash ∷ y)
unfolding absolute joined
absolute_ends [] y = ([], refl)
absolute_ends (x ∷ ys) y =
    (slash ∷ joined (x ∷ ys), ap (λ (s : Str). slash ∷ s) (joined-append x ys y))

drop_slashes-append :
    (z t : Str) → (z == []) ≡ false → has_byte slash z ≡ false → drop_slashes (z ++ t) ≡ z ++ t
unfolding drop_slashes has_byte ◌==◌
drop_slashes-append [] t given n = cc
drop_slashes-append (c ∷ z) t given n = ground arith

append-not_nil : (r y : Str) → ((r ++ slash ∷ y) == []) ≡ false
unfolding ◌==◌
append-not_nil [] y = refl
append-not_nil (c ∷ r) y = refl

reverse_last : (r y : Str) → reverse (r ++ slash ∷ y) ≡ reverse y ++ slash ∷ reverse r
reverse_last r y =
    reverse-append r (slash ∷ y)
    ∙ ap (λ (s : Str). s ++ reverse r) (reverse-cons slash y)
    ∙ append_assoc (reverse y) (slash ∷ []) (reverse r)

stripped_self :
    (r y : Str)
    → (reverse y == []) ≡ false
    → has_byte slash (reverse y) ≡ false
    → reverse (drop_slashes (reverse (r ++ slash ∷ y))) ≡ r ++ slash ∷ y
stripped_self r y given back =
    let q = reverse_last r y in
    ap reverse
      (ap drop_slashes q ∙ drop_slashes-append (reverse y) (slash ∷ reverse r) given back ∙ sym q)
    ∙ reverse-reverse (r ++ slash ∷ y)

base-append :
    (r y : Str)
    → (reverse y == []) ≡ false
    → has_byte slash (reverse y) ≡ false
    → has_byte slash y ≡ false
    → base (r ++ slash ∷ y) ≡ y
unfolding base
base-append r y given back n =
    rw (append-not_nil r y, stripped_self r y given back, append-not_nil r y)
      (after_last-append slash r y n)

-- The last segment of an absolute path, if it is given and neither it nor its reverse has a slash.
pub base-absolute :
    (ys : List Str) (y : Str)
    → (reverse y == []) ≡ false
    → has_byte slash (reverse y) ≡ false
    → has_byte slash y ≡ false
    → base (absolute (ys ++ y ∷ [])) ≡ y
base-absolute ys y given back n =
    let (r, e) = absolute_ends ys y in ap base e ∙ base-append r y given back n
