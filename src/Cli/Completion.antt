-- ===== src/Cli/Completion.antt =====
-- `getBranches` of cli/add.go: the branch names that completion offers.
use wtp.Base.{
  ◌≡◌, refl, sym, ap, ◌∙◌, ◌++◌, inl, inr, Option-cases, Bool, true, false, not, ◌&&◌, ◌||◌, List,
  [], ◌∷◌, if◌then◌else◌, arith,
}
use wtp.Base.Dict.{in_set}
use wtp.Base.Text.{Str, str, ◌==◌, has_prefix, cut_prefix, trim_prefix, trim_space, split_byte}
use wtp.Base.Text.Laws.{eq_iff, eq_refl, cut_prefix-eq-some}

-- "Skip HEAD references and bare origin"
abbrev skipped : Str → Bool
skipped branch = branch == [] || (branch == str "origin/HEAD" || branch == str "origin")

-- "For remote branches, show without the origin/ prefix"
unfoldable pub display_name : Str → Str
display_name branch =
    if has_prefix (str "origin/") branch then trim_prefix (str "origin/") branch else branch

-- The loop over the branches, with what it prints.
unfoldable pub branch_names : List Str → List Str → List Str
branch_names [] seen = []
branch_names (branch ∷ branches) seen =
    let name = display_name branch in
    let old = branch_names branches seen in
    let new = branch_names branches (name ∷ seen) in
    if skipped branch || in_set name seen then old else name ∷ new

-- What is printed for the output of git.
unfoldable pub get_branches : Str → List Str
unfolding branch_names
get_branches output = branch_names (split_byte 10 (trim_space output)) []

abbrev origin : Str
origin = str "origin/"

-- Whether a line of git's output stands for the name: a branch of the remote, other than its HEAD, or
-- a line that is the name itself, is neither empty nor the bare remote, and is no branch of the remote.
abbrev pub stands_for : Str → Str → Bool
stands_for name line =
    (line == origin ++ name && not (name == str "HEAD"))
    || (line == name
        && (not (name == []) && (not (name == str "origin") && not (has_prefix origin name))))

-- Some line stands for the name.
abbrev pub offered : Str → List Str → Bool
offered name [] = false
offered name (branch ∷ branches) = stands_for name branch || offered name branches

prefixed : (rest : Str) → has_prefix origin (origin ++ rest) ≡ true
unfolding has_prefix cut_prefix
prefixed rest = refl

not_prefixed : (rest line : Str) → has_prefix origin line ≡ false → (line == origin ++ rest) ≡ false
not_prefixed rest line h = ground (
  arith,
  eq_iff line (origin ++ rest),
  λ (e : line ≡ origin ++ rest). ap (has_prefix origin) e ∙ prefixed rest,
  h,
)

skipped-prefixed : (rest : Str) → skipped (origin ++ rest) ≡ (rest == str "HEAD")
unfolding ◌==◌
skipped-prefixed rest = ground arith

display_name-prefixed : (rest : Str) → display_name (origin ++ rest) ≡ rest
unfolding display_name has_prefix trim_prefix cut_prefix
display_name-prefixed rest = refl

same_prefix : (rest name : Str) → ((origin ++ rest) == (origin ++ name)) ≡ (rest == name)
unfolding ◌==◌
same_prefix rest name = refl

-- A branch of the remote.
stands_for-prefixed :
    (name rest : Str)
    → (not (skipped (origin ++ rest)) && display_name (origin ++ rest) == name)
      ≡ stands_for name (origin ++ rest)
stands_for-prefixed name rest =
    rw (skipped-prefixed rest, display_name-prefixed rest, same_prefix rest name)
      (ground (
        arith,
        eq_iff rest name,
        λ (e : rest ≡ name). ap (λ (s : Str). s == str "HEAD") e,
        eq_iff (origin ++ rest) name,
        λ (e : (origin ++ rest) ≡ name). ap (has_prefix origin) (sym e) ∙ prefixed rest,
      ))

-- Any other line.
stands_for-plain :
    (name branch : Str)
    → has_prefix origin branch ≡ false
    → (not (skipped branch) && display_name branch == name) ≡ stands_for name branch
unfolding display_name
stands_for-plain name branch h = ground (
  arith,
  h,
  not_prefixed name branch h,
  not_prefixed (str "HEAD") branch h,
  eq_iff branch name,
  λ (e : branch ≡ name). ap (λ (s : Str). s == []) e,
  λ (e : branch ≡ name). ap (λ (s : Str). s == str "origin") e,
  λ (e : branch ≡ name). ap (has_prefix origin) e,
)

display_name-stands_for :
    (name branch : Str)
    → (not (skipped branch) && display_name branch == name) ≡ stands_for name branch
unfolding has_prefix
display_name-stands_for name branch = elim (Option-cases (cut_prefix origin branch)) [
  | inl e ↦ stands_for-plain name branch (rw e refl)
  | inr (rest, e) ↦
      let same = cut_prefix-eq-some origin branch rest e in rw same (stands_for-prefixed name rest)
]

-- What the loop shows, by its own tests.
abbrev in_lines : Str → List Str → Bool
in_lines name [] = false
in_lines name (branch ∷ branches) =
    (not (skipped branch) && display_name branch == name) || in_lines name branches

in_lines-offered :
    (name : Str) (branches : List Str) → in_lines name branches ≡ offered name branches
in_lines-offered name [] = refl
in_lines-offered name (branch ∷ branches) =
    ap (λ (b : Bool). b || in_lines name branches) (display_name-stands_for name branch)
    ∙ ap (λ (b : Bool). stands_for name branch || b) (in_lines-offered name branches)

in_set-branch_names :
    (name : Str) (branches seen : List Str)
    → in_set name (branch_names branches seen) ≡ (not (in_set name seen) && in_lines name branches)
unfolding branch_names
in_set-branch_names name [] seen = ground arith
in_set-branch_names name (branch ∷ branches) seen = ground (
  arith,
  eq_iff (display_name branch) name,
  in_set-branch_names name branches seen,
  in_set-branch_names name branches (display_name branch ∷ seen),
)

-- No name stands twice.
abbrev pub distinct : List Str → Bool
distinct [] = true
distinct (name ∷ names) = not (in_set name names) && distinct names

distinct-branch_names : (branches seen : List Str) → distinct (branch_names branches seen) ≡ true
unfolding branch_names
distinct-branch_names [] seen = refl
distinct-branch_names (branch ∷ branches) seen = ground (
  arith,
  eq_refl (display_name branch),
  in_set-branch_names (display_name branch) branches (display_name branch ∷ seen),
  distinct-branch_names branches seen,
  distinct-branch_names branches (display_name branch ∷ seen),
)

-- Completion offers a name exactly if a line of git's output stands for it: the line is the name
-- behind the prefix of origin, and the name is not HEAD; or the line is the name itself, which is
-- neither empty nor the bare remote and does not begin with that prefix. It offers no name twice.
pub get_branches-offered :
    (name output : Str)
    → (in_set name (get_branches output) ≡ offered name (split_byte 10 (trim_space output)))
      × (distinct (get_branches output) ≡ true)
unfolding get_branches
get_branches-offered name output = (
  in_set-branch_names name (split_byte 10 (trim_space output)) []
      ∙ in_lines-offered name (split_byte 10 (trim_space output)),
  distinct-branch_names (split_byte 10 (trim_space output)) [],
)
