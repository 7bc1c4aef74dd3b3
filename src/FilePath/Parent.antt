-- ===== src/FilePath/Parent.antt =====
-- The parent of an absolute path of plain segments.
use mathlib.Core.List.{reverse, reverse-cons, append-nil, append_assoc}
use wtp.Base.{◌||◌}
use wtp.Base.Text.Laws.{split_byte_self}
use wtp.FilePath.{join, dot}
use wtp.Base.{ℕ, ◌≡◌, refl, sym, ap, ◌∙◌, Bool, true, false, List, [], ◌∷◌, ◌++◌, arith}
use wtp.Base.Text.{Str, ◌==◌, has_byte, split_byte}
use wtp.Base.Text.Laws.{split_byte-append, has_byte-append_cons}
use wtp.Base.Lists.{All}
use wtp.FilePath.{slash, joined, clean_parts, clean, is_abs, up_to_last, dir}
use wtp.FilePath.Plain.{IsSegment, absolute, clean-absolute}

up_to_last-append :
    (c : ℕ) (a x : Str) → has_byte c x ≡ false → up_to_last c (a ++ c ∷ x) ≡ a ++ c ∷ []
unfolding up_to_last
up_to_last-append c [] x h = ground (arith, h)
up_to_last-append c (b ∷ a) x h =
    rw (has_byte-append_cons c a x) (ap (λ (s : Str). b ∷ s) (up_to_last-append c a x h))

pub joined-append :
    (x : Str) (xs : List Str) (y : Str) → joined (x ∷ (xs ++ y ∷ [])) ≡ joined (x ∷ xs) ++ slash ∷ y
unfolding joined
joined-append x [] y = refl
joined-append x (z ∷ xs) y =
    ap (λ (s : Str). x ++ slash ∷ s) (joined-append z xs y)
    ∙ sym (append_assoc x (slash ∷ joined (z ∷ xs)) (slash ∷ y))

split_trailing :
    (x : Str) (xs : List Str) (y : Str)
    → All IsSegment (x ∷ xs)
    → has_byte slash y ≡ false
    → split_byte slash (joined (x ∷ xs) ++ slash ∷ y) ≡ x ∷ (xs ++ y ∷ [])
unfolding joined split_byte
split_trailing x [] y (h, _) n =
    split_byte-append slash x y h.no_slash
    ∙ ap (λ (l : List Str). x ∷ l) (split_byte_self slash y n)
split_trailing x (z ∷ xs) y (h, hs) n =
    ap (split_byte slash) (append_assoc x (slash ∷ joined (z ∷ xs)) (slash ∷ y))
    ∙ split_byte-append slash x (joined (z ∷ xs) ++ slash ∷ y) h.no_slash
    ∙ ap (λ (l : List Str). x ∷ l) (split_trailing z xs y hs n)

-- A last segment that says nothing: none at all, or a dot.
abbrev IsIdle : Str → Type 0
IsIdle y = (y == [] || y == dot) ≡ true

clean_parts_idle :
    (rooted : Bool) (kept : List Str) (y : Str)
    → IsIdle y
    → clean_parts rooted kept (y ∷ []) ≡ reverse kept
unfolding clean_parts
clean_parts_idle rooted kept y idle = rw idle refl

clean_parts_segment :
    (rooted : Bool) (kept : List Str) (x : Str) (parts : List Str)
    → IsSegment x
    → clean_parts rooted kept (x ∷ parts) ≡ clean_parts rooted (x ∷ kept) parts
unfolding clean_parts
clean_parts_segment rooted kept x parts h = rw (h.given, h.no_dot, h.no_dots)

clean_parts_trailing :
    (rooted : Bool) (kept xs : List Str) (y : Str)
    → All IsSegment xs
    → IsIdle y
    → clean_parts rooted kept (xs ++ y ∷ []) ≡ reverse kept ++ xs
clean_parts_trailing rooted kept [] y h idle =
    clean_parts_idle rooted kept y idle ∙ sym (append-nil (reverse kept))
clean_parts_trailing rooted kept (x ∷ xs) y (h, hs) idle =
    clean_parts_segment rooted kept x (xs ++ y ∷ []) h
    ∙ clean_parts_trailing rooted (x ∷ kept) xs y hs idle
    ∙ rw reverse-cons (append_assoc (reverse kept) (x ∷ []) xs)

clean_trailing :
    (x : Str) (xs : List Str) (y : Str)
    → All IsSegment (x ∷ xs)
    → has_byte slash y ≡ false
    → IsIdle y
    → clean ((slash ∷ joined (x ∷ xs)) ++ slash ∷ y) ≡ absolute (x ∷ xs)
unfolding clean absolute is_abs split_byte clean_parts ◌==◌
clean_trailing x xs y h n idle =
    ap (λ (l : List Str). slash ∷ joined (clean_parts true [] l)) (split_trailing x xs y h n)
    ∙ ap (λ (l : List Str). slash ∷ joined l) (clean_parts_trailing true [] (x ∷ xs) y h idle)

pub dir-absolute :
    (xs : List Str) (y : Str)
    → All IsSegment xs
    → has_byte slash y ≡ false
    → dir (absolute (xs ++ y ∷ [])) ≡ absolute xs
unfolding dir absolute joined has_byte ◌==◌
dir-absolute [] y h n = ap clean (up_to_last-append slash [] y n) ∙ clean-absolute [] tt
dir-absolute (x ∷ xs) y h n =
    ap (λ (s : Str). clean (up_to_last slash (slash ∷ s))) (joined-append x xs y)
    ∙ ap clean (up_to_last-append slash (slash ∷ joined (x ∷ xs)) y n)
    ∙ clean_trailing x xs [] h refl refl

-- A dot behind an absolute path says nothing.
pub join-dot : (xs : List Str) → All IsSegment xs → join (absolute xs) dot ≡ absolute xs
unfolding join absolute joined clean split_byte clean_parts is_abs ◌==◌ has_byte
join-dot [] h = refl
join-dot (x ∷ xs) h = clean_trailing x xs dot h refl refl
