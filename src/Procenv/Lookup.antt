-- ===== src/Procenv/Lookup.antt =====
-- The later of two entries for one variable takes precedence.
use mathlib.Core.List.{reverse, reverse-append, append_assoc}
use wtp.Base.{◌≡◌, refl, sym, ap, ◌∙◌, Bool, false, ◌||◌, some, List, [], ◌∷◌, ◌++◌}
use wtp.Base.{if◌then◌else◌, arith}
use wtp.Base.Text.{Str, str, has_prefix, cut_prefix}
use wtp.Base.Text.Laws.{cut_prefix-append}
use wtp.Procenv.{first_after, lookup}

-- An entry sets the variable.
abbrev pub sets : Str → List Str → Bool
sets key [] = false
sets key (entry ∷ environ) = has_prefix (key ++ str "=") entry || sets key environ

first_after-append :
    (key : Str) (xs ys : List Str)
    → first_after (key ++ str "=") (xs ++ ys)
      ≡ (if sets key xs then first_after (key ++ str "=") xs else first_after (key ++ str "=") ys)
unfolding first_after has_prefix
first_after-append key [] ys = refl
first_after-append key (x ∷ xs) ys = ground (arith, first_after-append key xs ys)

sets-append : (key : Str) (xs ys : List Str) → sets key (xs ++ ys) ≡ (sets key xs || sets key ys)
sets-append key [] ys = refl
sets-append key (x ∷ xs) ys = ground (arith, sets-append key xs ys)

sets-reverse : (key : Str) (xs : List Str) → sets key (reverse xs) ≡ sets key xs
sets-reverse key [] = refl
sets-reverse key (x ∷ xs) =
    ap (sets key) (reverse-append (x ∷ []) xs)
    ∙ sets-append key (reverse xs) (x ∷ [])
    ∙ ground (arith, sets-reverse key xs)

entry_lem : (key value : Str) → cut_prefix (key ++ str "=") ((key ++ str "=") ++ value) ≡ some value
entry_lem key value = cut_prefix-append (key ++ str "=") value

first_after_entry :
    (key value : Str) (entries : List Str)
    → first_after (key ++ str "=") ((key ++ (str "=" ++ value)) ∷ entries) ≡ value
unfolding first_after
first_after_entry key value entries =
    ap (λ (entry : Str). first_after (key ++ str "=") (entry ∷ entries))
      (sym (append_assoc key (str "=") value))
    ∙ rw (first_after, entry_lem key value) refl

-- A variable has the value of the last entry that sets it: what a second list of entries sets hides
-- the first list, a new entry for it is what is looked up, and without one the value is empty.
pub lookup-append :
    (key value : Str) (earlier later : List Str)
    → (lookup (earlier ++ later) key
        ≡ (if sets key later then lookup later key else lookup earlier key))
      × (lookup (earlier ++ (key ++ (str "=" ++ value)) ∷ []) key ≡ value)
      × (lookup [] key ≡ [])
unfolding lookup first_after
lookup-append key value earlier later = (
  ap (first_after (key ++ str "=")) (reverse-append earlier later)
      ∙ first_after-append key (reverse later) (reverse earlier)
      ∙ rw (sets-reverse key later) refl,
  ap (first_after (key ++ str "=")) (reverse-append earlier ((key ++ (str "=" ++ value)) ∷ []))
      ∙ first_after_entry key value (reverse earlier),
  refl,
)
