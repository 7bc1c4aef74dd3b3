-- ===== src/Cli/Remove/Cleanup/Storage.antt =====
-- How far the clean-up of central storage climbs.
use mathlib.Core.List.{reverse, reverse-cons, append-nil, append_assoc}
use wtp.Base.{
  ℕ, zero, suc, ◌+◌, ◌≤◌, ◌<◌, ◌≡◌, ◌≢◌, refl, sym, ap, ◌∙◌, Bool, true, false, List, [], ◌∷◌,
}
use wtp.Base.{◌++◌, if◌then◌else◌, arith, inl, inr, Bool-cases, Option, some}
use wtp.Base.Text.{Str, str, ◌==◌, has_prefix, cut_prefix}
use wtp.Base.Text.Laws.{eq_iff, cut_prefix-append}
use wtp.Base.Lists.{length, length-append, All, All-append}
use wtp.FilePath.{slash, joined, abs, dir}
use wtp.FilePath.Plain.{IsSegment, absolute, absolute-injective, absolute-is_abs, clean-absolute}
use wtp.FilePath.Parent.{dir-absolute}
use wtp.Cli.Remove.{Around}
use wtp.Cli.Remove.Cleanup.{climb_on, remove_dirs, below_root, cleanup_centralized_worktree_dir}

not_same : (s t : Str) → s ≢ t → (s == t) ≡ false
not_same s t h = elim (Bool-cases (s == t)) [ inl e ↦ absurd (h ((eq_iff s t).0 e)) | inr e ↦ e ]

-- The segments of the directory that is reached from `root` by the segments `up`, the last first.
abbrev pub down : List Str → List Str → List Str
down root up = root ++ reverse up

down-cons :
    (root : List Str) (y : Str) (ys : List Str) → down root (y ∷ ys) ≡ down root ys ++ y ∷ []
down-cons root y ys =
    ap (λ (l : List Str). root ++ l) (reverse-cons y ys)
    ∙ sym (append_assoc root (reverse ys) (y ∷ []))

down-longer :
    (root : List Str) (y : Str) (ys : List Str)
    → length (down root (y ∷ ys)) ≡ suc (length (down root ys))
down-longer root y ys =
    omega (arith, ap length (down-cons root y ys), length-append (down root ys) (y ∷ []))

down-below : (root up : List Str) → length root ≤ length (down root up)
down-below root up = omega (arith, length-append root (reverse up))

All-down :
    (root up : List Str) → All IsSegment root → All IsSegment up → All IsSegment (down root up)
All-down root [] hr hu = All-append IsSegment root [] hr tt
All-down root (y ∷ ys) hr (h, hs) =
    rw (down-cons root y ys)
      (All-append IsSegment (down root ys) (y ∷ []) (All-down root ys hr hs) (h, tt))

length-down : (root up : List Str) → length (down root up) ≡ length root + length up
length-down root [] = omega (arith, ap length (append-nil root))
length-down root (y ∷ ys) = omega (arith, down-longer root y ys, length-down root ys)

length-segment : (x : Str) → IsSegment x → 1 ≤ length x
unfolding ◌==◌
length-segment [] h = cc (h.given)
length-segment (c ∷ x) h = omega arith

length-joined : (xs : List Str) → All IsSegment xs → length xs ≤ length (joined xs)
unfolding joined
length-joined [] h = omega arith
length-joined (x ∷ []) (h, _) = length-segment x h
length-joined (x ∷ y ∷ xs) (h, hs) =
    omega (arith, length-joined (y ∷ xs) hs, length-append x (slash ∷ joined (y ∷ xs)))

length-absolute : (xs : List Str) → All IsSegment xs → length xs ≤ length (absolute xs)
unfolding absolute
length-absolute xs h = omega (arith, length-joined xs h)

joined-append_cons :
    (x : Str) (xs : List Str) (z : Str) (zs : List Str)
    → joined (x ∷ (xs ++ z ∷ zs)) ≡ (joined (x ∷ xs) ++ str "/") ++ joined (z ∷ zs)
unfolding joined
joined-append_cons x [] z zs = sym (append_assoc x (str "/") (joined (z ∷ zs)))
joined-append_cons x (y ∷ xs) z zs =
    ap (λ (s : Str). x ++ slash ∷ s) (joined-append_cons y xs z zs)
    ∙ sym (
        ap (λ (s : Str). s ++ joined (z ∷ zs)) (append_assoc x (slash ∷ joined (y ∷ xs)) (str "/"))
        ∙ append_assoc x (slash ∷ (joined (y ∷ xs) ++ str "/")) (joined (z ∷ zs)))

has_prefix-below :
    (r : Str) (rs l : List Str)
    → length (r ∷ rs) < length (r ∷ (rs ++ l))
    → has_prefix (absolute (r ∷ rs) ++ str "/") (absolute (r ∷ (rs ++ l))) ≡ true
unfolding has_prefix absolute
has_prefix-below r rs [] h = absurd (omega (arith, h, ap length (append-nil rs)))
has_prefix-below r rs (z ∷ zs) h =
    let found =
      ap (λ (s : Str). cut_prefix ((slash ∷ joined (r ∷ rs)) ++ str "/") (slash ∷ s))
        (joined-append_cons r rs z zs)
      ∙ cut_prefix-append ((slash ∷ joined (r ∷ rs)) ++ str "/") (joined (z ∷ zs)) in
    rw found

abs-absolute :
    (pwd : Option Str) (xs : List Str)
    → All IsSegment xs
    → abs pwd (absolute xs) ≡ some (absolute xs)
unfolding abs ◌==◌ absolute
abs-absolute pwd xs h = rw (absolute-is_abs xs, clean-absolute xs h)

absolute-given : (xs : List Str) → (absolute xs == []) ≡ false
unfolding absolute ◌==◌
absolute-given xs = refl

module _ {G : Type 0} (around : Around G) (root : List Str) (plain : All IsSegment root) where
  -- The directories are removed from the leaf on as long as that succeeds, and never the root.
  abbrev pub walk : List Str → G → G
  walk [] g = g
  walk (y ∷ ys) g =
      let (gone, g') = around.remove_dir (absolute (down root (y ∷ ys))) g in
      let rest = walk ys g' in if gone then rest else g'

  climb_on-walk :
      (next : G → G) (ys : List Str) (r : Bool × G)
      → ((g : G) → next g ≡ walk ys g)
      → climb_on around next r ≡ (if r.0 then walk ys r.1 else r.1)
  unfolding climb_on
  climb_on-walk next ys (true, g) h = h g
  climb_on-walk next ys (false, g) h = refl

  -- One turn of the loop: the directory is neither the root nor its own parent.
  off_root :
      (y : Str) (ys : List Str)
      → All IsSegment (y ∷ ys)
      → (absolute (down root (y ∷ ys)) == absolute root) ≡ false
  off_root y ys h = not_same _ _ (λ e.
      let same =
        absolute-injective (down root (y ∷ ys)) root (All-down root (y ∷ ys) plain h) plain e in
      omega (arith, ap length same, down-longer root y ys, down-below root ys))

  parent :
      (y : Str) (ys : List Str)
      → All IsSegment (y ∷ ys)
      → dir (absolute (down root (y ∷ ys))) ≡ absolute (down root ys)
  parent y ys (h, hs) =
      ap (λ (l : List Str). dir (absolute l)) (down-cons root y ys)
      ∙ dir-absolute (down root ys) y (All-down root ys plain hs) h.no_slash

  off_parent :
      (y : Str) (ys : List Str)
      → All IsSegment (y ∷ ys)
      → (absolute (down root (y ∷ ys)) == absolute (down root ys)) ≡ false
  off_parent y ys h = not_same _ _ (λ e.
      let same =
        absolute-injective (down root (y ∷ ys)) (down root ys) (All-down root (y ∷ ys) plain h)
          (All-down root ys plain h.1) e in
      omega (arith, ap length same, down-longer root y ys))

  remove_dirs-walk :
      (fuel : ℕ) (up : List Str)
      → All IsSegment up
      → length up ≤ fuel
      → (g : G) → remove_dirs around fuel (absolute root) (absolute (down root up)) g ≡ walk up g
  unfolding remove_dirs
  remove_dirs-walk zero [] h enough g = refl
  remove_dirs-walk zero (y ∷ ys) h enough g = absurd (omega (arith, enough))
  remove_dirs-walk (suc fuel) [] h enough g =
      let same : absolute (down root []) ≡ absolute root = ap absolute (append-nil root) in
      rw ((eq_iff (absolute (down root [])) (absolute root)).1 same)
  remove_dirs-walk (suc fuel) (y ∷ ys) h enough g =
      rw (off_root y ys h, parent y ys h, off_parent y ys h)
        (climb_on-walk (λ g'. remove_dirs around fuel (absolute root) (absolute (down root ys)) g')
          ys (around.remove_dir (absolute (down root (y ∷ ys))) g)
          (λ g'. remove_dirs-walk fuel ys h.1 (omega (arith, enough)) g'))

-- For a central storage and a worktree below it, both absolute and of plain segments, the clean-up
-- tries to remove the worktree's directory and then one parent after the other, as long as that
-- succeeds, and stops below the root of the storage: it never tries the root or what is above it.
pub cleanup_centralized_worktree_dir-walk :
    {G : Type 0} (around : Around G) (r : Str) (rs : List Str) (y : Str) (ys : List Str)
    → (plain : All IsSegment (r ∷ rs)) → All IsSegment (y ∷ ys)
    → around.storage_root ≡ absolute (r ∷ rs)
    → (g : G)
    → cleanup_centralized_worktree_dir around (absolute (down (r ∷ rs) (y ∷ ys))) g
      ≡ walk around (r ∷ rs) plain (y ∷ ys) g
unfolding cleanup_centralized_worktree_dir below_root
cleanup_centralized_worktree_dir-walk around r rs y ys plain segments storage g =
    let root = r ∷ rs in
    let up = y ∷ ys in
    let all = All-down root up plain segments in
    let count = length-down root up in
    rw
      (
        storage,
        absolute-given root,
        abs-absolute around.pwd (down root up) all,
        abs-absolute around.pwd root plain,
        has_prefix-below r rs (reverse up) (omega (arith, count)),
      )
      (remove_dirs-walk around root plain (length (absolute (down root up))) up segments
        (omega (arith, count, length-absolute (down root up) all)) g)
