-- ===== src/FilePath.antt =====
-- Go's package `path/filepath` on Unix, as far as the program calls it: lexical operations on paths.
pub mod Plain
pub mod Relative
pub mod Parent
pub mod Rooted
pub mod Last
use mathlib.Core.List.{reverse}
use wtp.Base.{
  ℕ, zero, suc, Bool, true, false, not, ◌&&◌, ◌||◌, Option, none, some, List, [], ◌∷◌, ◌++◌,
  if◌then◌else◌, nat_eq,
}
use wtp.Base.Text.{
  Str, str, ◌==◌, has_prefix, trim_prefix, split_byte, has_byte, after_last, trim_left,
}

abbrev pub slash : ℕ
slash = b'/'

abbrev pub dot : Str
dot = str "."

abbrev pub dots : Str
dots = str ".."

-- `filepath.IsAbs`
unfoldable pub is_abs : Str → Bool
is_abs [] = false
is_abs (c ∷ path) = nat_eq c slash

-- `strings.Join(parts, "/")`
unfoldable pub joined : List Str → Str
joined [] = []
joined (x ∷ []) = x
joined (x ∷ y ∷ parts) = x ++ slash ∷ joined (y ∷ parts)

-- A `..` takes back the segment before it, if that is one, and stays if there is none, unless the
-- path is rooted. The segments so far stand in reverse.
go_up : Bool → List Str → List Str
go_up true [] = []
go_up false [] = dots ∷ []
go_up rooted (x ∷ kept) = if x == dots then dots ∷ x ∷ kept else kept

unfoldable pub clean_parts : Bool → List Str → List Str → List Str
unfolding go_up
clean_parts rooted kept [] = reverse kept
clean_parts rooted kept (x ∷ parts) =
    clean_parts rooted
      (if x == [] || x == dot then kept else if x == dots then go_up rooted kept else x ∷ kept)
      parts

-- The cleaned segments as a path.
abbrev pub assemble : Bool → List Str → Str
assemble true parts = slash ∷ joined parts
assemble false [] = dot
assemble false (x ∷ parts) = joined (x ∷ parts)

-- `filepath.Clean`
unfoldable pub clean : Str → Str
unfolding clean_parts is_abs joined
clean path =
    if path == []
    then dot
    else assemble (is_abs path) (clean_parts (is_abs path) [] (split_byte slash path))

-- `filepath.Join` of two elements
unfoldable pub join : Str → Str → Str
unfolding clean
join a b = if a == [] then (if b == [] then [] else clean b) else clean (a ++ slash ∷ b)

-- `filepath.Abs`, from the working directory of the process if that is known.
unfoldable pub abs : Option Str → Str → Option Str
unfolding clean is_abs join
abs pwd path =
    if is_abs path
    then some (clean path)
    else elim pwd [ none ↦ none | some dir ↦ some (join dir path) ]

-- What stands up to the last slash, with it.
unfoldable pub up_to_last : ℕ → Str → Str
up_to_last c [] = []
up_to_last c (b ∷ s) =
    let rest = up_to_last c s in
    if has_byte c s then b ∷ rest else if nat_eq b c then b ∷ [] else []

-- `filepath.Dir`
unfoldable pub dir : Str → Str
unfolding clean up_to_last
dir path = clean (up_to_last slash path)

drop_slashes : Str → Str
drop_slashes [] = []
drop_slashes (c ∷ s) = let rest = drop_slashes s in if nat_eq c slash then rest else c ∷ s

-- `filepath.Base`
unfoldable pub base : Str → Str
unfolding drop_slashes
base path =
    if path == []
    then dot
    else (let stripped = reverse (drop_slashes (reverse path)) in
        if stripped == [] then slash ∷ [] else after_last slash stripped)

-- The segments of a path that is clean.
unfoldable pub elements : Str → List Str
elements path =
    let body = trim_prefix (slash ∷ []) path in if body == [] then [] else split_byte slash body

-- What is left of two lists of segments behind those that they begin with alike.
unfoldable pub strip_common : List Str → List Str → List Str × List Str
strip_common [] ts = ([], ts)
strip_common (b ∷ bs) [] = (b ∷ bs, [])
strip_common (b ∷ bs) (t ∷ ts) =
    let rest = strip_common bs ts in if b == t then rest else (b ∷ bs, t ∷ ts)

abbrev ups : List Str → List Str
ups [] = []
ups (b ∷ bs) = dots ∷ ups bs

-- From what is left of the base, and what is left of the target.
unfoldable pub climb : List Str → List Str → Option Str
unfolding joined
climb [] ts = some (joined ts)
climb (b ∷ bs) ts = if b == dots then none else some (joined (ups (b ∷ bs) ++ ts))

-- `filepath.Rel`, which fails if no lexical answer is there.
unfoldable pub rel : Str → Str → Option Str
unfolding clean elements strip_common climb is_abs
rel base_path target_path =
    let b = clean base_path in
    let t = clean target_path in
    if t == b
    then some dot
    else (let b' : Str = if b == dot then [] else b in
        if nat_eq (if is_abs b' then 1 else 0) (if is_abs t then 1 else 0)
        then (let (bs, ts) = strip_common (elements b') (elements t) in climb bs ts)
        else none)

-- `isPathWithin` of cli/remove.go, and the test of `ensureWithinBase` of internal/hooks.
unfoldable pub stays_below : Str → Bool
stays_below r = not (r == dots || has_prefix (str "../") r)

abbrev within : Option Str → Bool
within none = false
within (some r) = if r == dot || r == [] then true else stays_below r

unfoldable pub is_path_within : Str → Str → Bool
unfolding rel stays_below
is_path_within base_path target_path = within (rel base_path target_path)

-- `ensureWithinBase` succeeds.
unfoldable pub ensure_within_base : Str → Str → Bool
unfolding rel stays_below
ensure_within_base base_path target = elim (rel base_path target) [
  | none ↦ false
  | some r ↦ stays_below r
]
