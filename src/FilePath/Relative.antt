-- ===== src/FilePath/Relative.antt =====
-- Which paths lie below which.
use mathlib.Core.Path.{subst}
use mathlib.Core.List.{append-nil}
use wtp.Base.{
  ◌≡◌, ◌↔◌, refl, sym, ap, ◌∙◌, true, false, some, List, [], ◌∷◌, ◌++◌, arith, Bool-cases, inl, inr,
}
use wtp.Base.Text.{Str, ◌==◌, has_byte, has_prefix}
use wtp.Base.Text.Laws.{eq_iff, eq_refl}
use wtp.Base.Lists.{All}
use wtp.FilePath.{
  dot, joined, rel, strip_common, climb, stays_below, within, is_path_within, ensure_within_base,
}
use wtp.FilePath.Plain.{
  IsSegment, absolute, clean-absolute, elements-absolute, absolute-injective, absolute-is_abs,
  absolute-not_dot,
}

-- The target has the segments of the base in front.
abbrev pub IsBelow : List Str → List Str → Type 0
IsBelow bs ts = (rest : List Str) × (ts ≡ bs ++ rest)

-- How a target lies to a base: in it, or outside.
data Place (bs ts : List Str) : Type 0 where
  inside : (rest : List Str) → strip_common bs ts ≡ ([], rest) → ts ≡ bs ++ rest → Place bs ts
  outside :
      (b : Str) (bs' ts' : List Str)
      → IsSegment b
      → strip_common bs ts ≡ (b ∷ bs', ts')
      → ¬ (IsBelow bs ts)
      → Place bs ts

place : (bs ts : List Str) → All IsSegment bs → Place bs ts
unfolding strip_common
place [] ts h = inside ts refl refl
place (b ∷ bs) [] h = outside b bs [] h.0 refl (λ (rest, e). cc)
place (b ∷ bs) (t ∷ ts) h = elim (Bool-cases (b == t)) [
  | inl same ↦
      let eq = (eq_iff b t).0 same in
      elim (place bs ts h.1) [
        | inside rest e below ↦ inside rest (rw same e) (cc)
        | outside c bs' ts' seg e not_below ↦
            outside c bs' ts' seg (rw same e) (λ (rest, f). not_below (rest, cc))
      ]
  | inr differ ↦
      outside b bs (t ∷ ts) h.0 (rw differ)
        (λ (rest, f). let same : b ≡ t = cc in cc (differ, (eq_iff b t).1 same))
]

joined-stays : (r : Str) (rs : List Str) → IsSegment r → stays_below (joined (r ∷ rs)) ≡ true
unfolding stays_below joined has_prefix ◌==◌ has_byte
joined-stays [] rs h = cc (h.given)
joined-stays (a ∷ []) [] h = ground (arith, h.no_dot)
joined-stays (a ∷ b ∷ []) [] h = ground (arith, h.no_dots)
joined-stays (a ∷ b ∷ c ∷ r) [] h = ground (arith, h.no_slash)
joined-stays (a ∷ []) (x ∷ rs) h = ground (arith, h.no_dot)
joined-stays (a ∷ b ∷ []) (x ∷ rs) h = ground (arith, h.no_dots)
joined-stays (a ∷ b ∷ c ∷ r) (x ∷ rs) h = ground (arith, h.no_slash)

within-inside : (rest : List Str) → All IsSegment rest → within (climb [] rest) ≡ true
unfolding climb joined ◌==◌
within-inside [] h = refl
within-inside (r ∷ rs) h = rw (joined-stays r rs h.0) (ground arith)

within-outside : (b : Str) (bs ts : List Str) → IsSegment b → within (climb (b ∷ bs) ts) ≡ false
unfolding climb stays_below joined has_prefix ◌==◌
within-outside b [] [] h = rw h.no_dots
within-outside b [] (t ∷ ts) h = rw h.no_dots
within-outside b (c ∷ bs) ts h = rw h.no_dots

All-behind : (bs rest : List Str) → All IsSegment (bs ++ rest) → All IsSegment rest
All-behind [] rest h = h
All-behind (b ∷ bs) rest h = All-behind bs rest h.1

module _ (xs ys : List Str) (hx : All IsSegment xs) (hy : All IsSegment ys) where
  rel-absolute :
      (absolute ys == absolute xs) ≡ false
      → rel (absolute xs) (absolute ys) ≡ climb (strip_common xs ys).0 (strip_common xs ys).1
  unfolding rel
  rel-absolute differ =
      rw (clean-absolute xs hx, clean-absolute ys hy, differ, absolute-not_dot xs)
        (rw (
          absolute-is_abs xs,
          absolute-is_abs ys,
          elements-absolute xs hx,
          elements-absolute ys hy,
        ))

  rel_self : (absolute ys == absolute xs) ≡ true → rel (absolute xs) (absolute ys) ≡ some dot
  unfolding rel
  rel_self same = rw (clean-absolute xs hx, clean-absolute ys hy, same)

  within_place :
      (absolute ys == absolute xs) ≡ false
      → (within (climb (strip_common xs ys).0 (strip_common xs ys).1) ≡ true) ↔ IsBelow xs ys
  within_place differ = elim (place xs ys hx) [
    | inside rest e below ↦
        let behind = All-behind xs rest (subst (All IsSegment) below hy) in
        (λ _. (rest, below), λ _. rw e (within-inside rest behind))
    | outside b bs ts seg e not_below ↦
        let out = within-outside b bs ts seg in
        (λ h. cc (rw e at h, out), λ h. absurd (not_below h))
  ]

  -- For absolute paths written from plain segments, a path lies within another one exactly if it has
  -- the segments of that one in front. So `/a/bc` does not lie within `/a/b`.
  pub is_path_within-IsBelow : (is_path_within (absolute xs) (absolute ys) ≡ true) ↔ IsBelow xs ys
  unfolding is_path_within
  is_path_within-IsBelow = elim (Bool-cases (absolute ys == absolute xs)) [
    | inl same ↦
        let equal = absolute-injective ys xs hy hx ((eq_iff (absolute ys) (absolute xs)).0 same) in
        (λ _. ([], equal ∙ sym (append-nil xs)), λ _. ap within (rel_self same) ∙ rw (eq_refl dot))
    | inr differ ↦
        let found = ap within (rel-absolute differ) in
        let (to, from) = within_place differ in (λ h. to (sym found ∙ h), λ h. found ∙ from h)
  ]

-- What `ensureWithinBase` lets through, `isPathWithin` finds within.
pub ensure_within_base-within :
    (base target : Str) → ensure_within_base base target ≡ true → is_path_within base target ≡ true
unfolding ensure_within_base is_path_within
ensure_within_base-within base target h = ground arith
