-- ===== src/FilePath/Plain.antt =====
-- Absolute paths that are written from plain segments are clean, and give their segments back.
use mathlib.Core.List.{reverse, reverse-cons, append-nil, append_assoc}
use wtp.Base.{◌≡◌, refl, sym, ap, ◌∙◌, Bool, true, false, List, [], ◌∷◌, ◌++◌}
use wtp.Base.Text.{Str, ◌==◌, has_byte, split_byte, trim_prefix}
use wtp.Base.Text.Laws.{split_byte-append, split_byte_self}
use wtp.Base.Lists.{All}
use wtp.FilePath.{slash, dot, dots, joined, clean_parts, clean, elements, is_abs}

-- A segment that is no special one.
pub record IsSegment (x : Str) : Type 0 where
  pub given : (x == []) ≡ false
  pub no_dot : (x == dot) ≡ false
  pub no_dots : (x == dots) ≡ false
  pub no_slash : has_byte slash x ≡ false

-- The absolute path of some segments.
unfoldable pub absolute : List Str → Str
absolute parts = slash ∷ joined parts

split_joined :
    (x : Str) (xs : List Str) → All IsSegment (x ∷ xs) → split_byte slash (joined (x ∷ xs)) ≡ x ∷ xs
unfolding joined
split_joined x [] (h, _) = split_byte_self slash x h.no_slash
split_joined x (y ∷ xs) (h, hs) =
    rw (split_byte-append slash x (joined (y ∷ xs)) h.no_slash, split_joined y xs hs)

clean_parts_plain :
    (rooted : Bool) (kept xs : List Str)
    → All IsSegment xs
    → clean_parts rooted kept xs ≡ reverse kept ++ xs
unfolding clean_parts
clean_parts_plain rooted kept [] h = sym (append-nil (reverse kept))
clean_parts_plain rooted kept (x ∷ xs) (h, hs) =
    rw (h.given, h.no_dot, h.no_dots)
      (clean_parts_plain rooted (x ∷ kept) xs hs
        ∙ rw reverse-cons (append_assoc (reverse kept) (x ∷ []) xs))

split_absolute :
    (xs : List Str) → All IsSegment xs → clean_parts true [] (split_byte slash (absolute xs)) ≡ xs
unfolding absolute joined split_byte clean_parts ◌==◌
split_absolute [] h = refl
split_absolute (x ∷ xs) h =
    ap (clean_parts true []) (split_joined x xs h) ∙ clean_parts_plain true [] (x ∷ xs) h

pub clean-absolute : (xs : List Str) → All IsSegment xs → clean (absolute xs) ≡ absolute xs
unfolding clean absolute ◌==◌
clean-absolute xs h = ap (λ (parts : List Str). slash ∷ joined parts) (split_absolute xs h)

joined-given : (x : Str) (xs : List Str) → (x == []) ≡ false → (joined (x ∷ xs) == []) ≡ false
unfolding joined ◌==◌
joined-given (c ∷ x) [] h = refl
joined-given (c ∷ x) (y ∷ xs) h = refl
joined-given [] xs h = cc

pub elements-absolute : (xs : List Str) → All IsSegment xs → elements (absolute xs) ≡ xs
unfolding elements absolute trim_prefix ◌==◌ joined
elements-absolute [] h = refl
elements-absolute (x ∷ xs) h = rw (joined-given x xs h.0.given) (split_joined x xs h)

pub absolute-injective :
    (xs ys : List Str) → All IsSegment xs → All IsSegment ys → absolute xs ≡ absolute ys → xs ≡ ys
absolute-injective xs ys hx hy e =
    sym (elements-absolute xs hx) ∙ ap elements e ∙ elements-absolute ys hy

pub absolute-is_abs : (xs : List Str) → is_abs (absolute xs) ≡ true
unfolding absolute is_abs
absolute-is_abs xs = refl

pub absolute-not_dot : (xs : List Str) → (absolute xs == dot) ≡ false
unfolding absolute ◌==◌
absolute-not_dot xs = refl
