-- ===== src/Cli/Cd/Listed.antt =====
-- What `wtp cd` prints is the path of a worktree.
use mathlib.Core.Path.{subst}
use mathlib.Core.Option.{some-injective}
use wtp.Base.{
  Bool-cases, ◌⊎◌, ◌≡◌, refl, sym, ap, ◌∙◌, Bool, true, false, none, some, List, [], ◌∷◌, inl, inr,
}
use wtp.Base.Result.{Result, ok, err, ok-injective, Result-cases}
use wtp.Base.Text.{Str, str, ◌==◌}
use wtp.Base.Lists.{All}
use wtp.Command.{CommandResult, Executor, git_worktree_list}
use wtp.Git.{Worktree, parse_worktree_list_output}
use wtp.Cli.Resolver.{
  matches, normalised, NotFound, resolve_worktree_path_by_name, available_worktree_names,
}
use wtp.Cli.Resolver.Lookup.{IsFirst, resolve-cases}
use wtp.Cli.Cd.{
  choice_of, Pick, selected, canceled, failed, Finder, Choice, resolved, picked, or_picked,
  target_of, wanted, print, path_to_print, cd_command_with_command_executor,
}

-- The name that is looked for: the one that is typed; with none, what the picker selects of all names
-- or, where there is no picker, the name of the main worktree.
abbrev pub IsWanted : Finder → List Str → Str → Str → Type 0
IsWanted finder names typed name =
    ((typed == [] ≡ false) × (name ≡ typed))
    ⊎ (((typed == [] ≡ true) × (finder ≡ none) × (name ≡ str "@"))
        ⊎ ((typed == [] ≡ true)
            × ((find : List Str → Str → Pick) × (finder ≡ some find)
                × (find names [] ≡ selected name))))

-- The name behind a path: the one that is looked for; or, where that addresses no worktree at all, the
-- one that the picker selects for it.
abbrev pub IsTaken : Finder → List Worktree → Str → Str → Type 0
IsTaken finder worktrees wanted_name name =
    (name ≡ wanted_name)
    ⊎ (All (λ wt. matches (normalised wanted_name) wt ≡ false) worktrees
        × ((find : List Str → Str → Pick) × (finder ≡ some find)
            × (find (available_worktree_names worktrees) wanted_name ≡ selected name)))

module _ (worktrees : List Worktree) (path : Str) where
  resolve-IsFirst :
      (name : Str)
      → resolve_worktree_path_by_name name worktrees ≡ ok path
      → IsFirst (normalised name) worktrees path
  resolve-IsFirst name h = elim (resolve-cases name worktrees) [
    | inl (found, e, first) ↦
        subst (λ p. IsFirst (normalised name) worktrees p) (ok-injective (sym e ∙ h)) first
    | inr (e, _) ↦ cc
  ]

  resolve-missing :
      (name : Str) (f : NotFound)
      → resolve_worktree_path_by_name name worktrees ≡ err f
      → All (λ wt. matches (normalised name) wt ≡ false) worktrees
  resolve-missing name f h = elim (resolve-cases name worktrees) [
    | inl (found, e, first) ↦ cc
    | inr (e, none_addressed) ↦ none_addressed
  ]

  abbrev path_choice : Str → Choice
  path_choice p = ok (some p)

  some-path : {p : Str} → path_choice p ≡ path_choice path → p ≡ path
  some-path {p} h = some-injective p path (ok-injective h)

  resolved-IsFirst :
      (name : Str)
      → resolved (resolve_worktree_path_by_name name worktrees) ≡ ok (some path)
      → IsFirst (normalised name) worktrees path
  unfolding resolved
  resolved-IsFirst name h = elim (Result-cases (resolve_worktree_path_by_name name worktrees)) [
    | inl (p, e) ↦ resolve-IsFirst name (e ∙ ap ok (some-path (rw e at h)))
    | inr (f, e) ↦ cc (rw e at h)
  ]

  -- A name that the path is taken from, and the worktree it is of.
  abbrev Taken : Finder → Str → Type 0
  Taken finder wanted_name =
      (name : Str) × IsTaken finder worktrees wanted_name name
      × IsFirst (normalised name) worktrees path

  picked-Taken :
      (find : List Str → Str → Pick) (wanted_name : Str) (f : NotFound) (pick : Pick)
      → All (λ wt. matches (normalised wanted_name) wt ≡ false) worktrees
      → find (available_worktree_names worktrees) wanted_name ≡ pick
      → picked worktrees f pick ≡ ok (some path)
      → Taken (some find) wanted_name
  unfolding picked
  picked-Taken find wanted_name f (selected name) missing e h =
      (name, inr (missing, (find, refl, e)), resolved-IsFirst name h)
  picked-Taken find wanted_name f canceled missing e h = cc
  picked-Taken find wanted_name f (failed _) missing e h = cc

  or_picked-Taken :
      (finder : Finder) (name : Str) (found : Result NotFound Str)
      → resolve_worktree_path_by_name name worktrees ≡ found
      → or_picked finder worktrees name found ≡ ok (some path)
      → Taken finder name
  unfolding or_picked
  or_picked-Taken finder name (ok p) e h =
      (name, inl refl, resolve-IsFirst name (e ∙ ap ok (some-path h)))
  or_picked-Taken none name (err f) e h = cc
  or_picked-Taken (some find) name (err f) e h =
      picked-Taken find name f (find (available_worktree_names worktrees) name)
        (resolve-missing name f e) refl h

  -- What is looked for, and what is taken.
  abbrev Aim : Finder → List Str → Str → Type 0
  Aim finder names typed =
      (wanted_name : Str) × IsWanted finder names typed wanted_name × Taken finder wanted_name

  target_of-Aim :
      (finder : Finder) (names : List Str) (typed : Str) (choice : Choice)
      → ((name : Str) → choice ≡ path_choice name → IsWanted finder names typed name)
      → target_of finder worktrees choice ≡ ok (some path)
      → Aim finder names typed
  unfolding target_of
  target_of-Aim finder names typed (err e) is_wanted h = cc
  target_of-Aim finder names typed (ok none) is_wanted h = cc
  target_of-Aim finder names typed (ok (some name)) is_wanted h = (
    name,
    is_wanted name refl,
    or_picked-Taken finder name (resolve_worktree_path_by_name name worktrees) refl h,
  )

choice_of-selected :
    (pick : Pick) (name : Str) → choice_of pick ≡ ok (some name) → pick ≡ selected name
unfolding choice_of
choice_of-selected (selected n) name h = ap selected (some-injective n name (ok-injective h))
choice_of-selected canceled name h = cc
choice_of-selected (failed e) name h = cc

wanted-IsWanted :
    (finder : Finder) (names : List Str) (typed name : Str)
    → wanted finder names typed ≡ ok (some name)
    → IsWanted finder names typed name
unfolding wanted
wanted-IsWanted none names typed name h = elim (Bool-cases (typed == [])) [
  | inl e ↦ inr (inl (e, refl, sym (some-injective (str "@") name (ok-injective (rw e at h)))))
  | inr e ↦ inl (e, sym (some-injective typed name (ok-injective (rw e at h))))
]
wanted-IsWanted (some find) names typed name h = elim (Bool-cases (typed == [])) [
  | inl e ↦ inr (inr (e, (find, refl, choice_of-selected (find names []) name (rw e at h))))
  | inr e ↦ inl (e, sym (some-injective typed name (ok-injective (rw e at h))))
]

print-some :
    (can_print : Bool) (choice : Choice) (path : Str)
    → print can_print choice ≡ ok (some path)
    → choice ≡ ok (some path)
unfolding print
print-some can_print (err e) path h = cc
print-some can_print (ok none) path h = cc
print-some true (ok (some p)) path h = h
print-some false (ok (some p)) path h = cc

-- If git's listing is there, a path that `wtp cd` prints is that of the first worktree in the listing
-- that one name addresses. The name is the typed one whenever that addresses a worktree; with none
-- typed, it is what the picker selects, or the main worktree's where there is no picker. Only where
-- the name that is looked for addresses no worktree is it one that the picker selects for it.
pub cd_command-IsFirst :
    {G : Type 0} (execute : Executor G) (can_print : Bool) (finder : Finder) (typed : Str)
    (g g' : G) (r : CommandResult) (rest : List CommandResult) (path : Str)
    → execute (git_worktree_list ∷ []) g ≡ (ok (r ∷ rest), g')
    → (cd_command_with_command_executor execute can_print finder typed g).0 ≡ ok (some path)
    → let worktrees = parse_worktree_list_output r.output in
      (wanted_name : Str) × IsWanted finder (available_worktree_names worktrees) typed wanted_name
      × ((name : Str) × IsTaken finder worktrees wanted_name name
          × IsFirst (normalised name) worktrees path)
unfolding cd_command_with_command_executor path_to_print
cd_command-IsFirst execute can_print finder typed g g' r rest path e h =
    let worktrees = parse_worktree_list_output r.output in
    let names = available_worktree_names worktrees in
    target_of-Aim worktrees path finder names typed (wanted finder names typed)
      (wanted-IsWanted finder names typed) (print-some can_print _ path (rw e at h))
