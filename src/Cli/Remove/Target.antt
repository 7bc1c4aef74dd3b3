-- ===== src/Cli/Remove/Target.antt =====
-- The worktree that `wtp remove` finds.
use wtp.Base.{
  Bool, ◌≡◌, ◌⊎◌, refl, ap, ◌∙◌, sym, true, false, not, ◌&&◌, if◌then◌else◌, List, [], ◌∷◌,
}
use wtp.Base.{◌++◌, arith, inl, inr, Bool-cases}
use wtp.Base.Result.{ok, err}
use wtp.Base.Text.{Str, ◌==◌}
use wtp.Base.Lists.{All}
use wtp.Git.{Worktree}
use mathlib.Core.List.{append-nil, append_assoc}
use wtp.Cli.Resolver.{NotFound}
use wtp.Cli.Remove.{find_from, find_target_worktree_from_list}

-- The branches of the worktrees that are not the main one.
abbrev pub linked_branches : List Worktree → List Str
linked_branches [] = []
linked_branches (wt ∷ wts) =
    let rest = linked_branches wts in if wt.is_main then rest else wt.branch ∷ rest

-- A linked worktree with the given branch.
abbrev pub is_named : Str → Worktree → Bool
is_named name wt = not wt.is_main && wt.branch == name

-- A worktree of the list that has the name, with the ones before it, which do not have it.
pub record IsFound (name : Str) (worktrees : List Worktree) (wt : Worktree) : Type 0 where
  pub before : List Worktree
  pub after : List Worktree
  pub position : worktrees ≡ before ++ wt ∷ after
  pub passed_over : All (λ v. is_named name v ≡ false) before
  pub linked : wt.is_main ≡ false
  pub named : (wt.branch == name) ≡ true

-- No worktree of the list has the name, and the error lists the branches there are.
abbrev pub IsMissing : Str → List Str → List Worktree → NotFound → Type 0
IsMissing name available worktrees e =
    All (λ v. is_named name v ≡ false) worktrees
    × (e ≡ record { name = name; available = available ++ linked_branches worktrees })

passed :
    (name : Str) (v wt : Worktree) (vs : List Worktree)
    → is_named name v ≡ false
    → IsFound name vs wt
    → IsFound name (v ∷ vs) wt
passed name v wt vs other f = record {
  before = v ∷ f.before;
  after = f.after;
  position = ap (λ (l : List Worktree). v ∷ l) f.position;
  passed_over = (other, f.passed_over);
  linked = f.linked;
  named = f.named;
}

abbrev Outcome : Str → List Str → List Worktree → Type 0
Outcome name available worktrees =
    ((wt : Worktree) × (find_from name available worktrees ≡ ok wt) × IsFound name worktrees wt)
    ⊎ ((e : NotFound) × (find_from name available worktrees ≡ err e)
        × IsMissing name available worktrees e)

find_from-cases :
    (name : Str) (available : List Str) (worktrees : List Worktree)
    → Outcome name available worktrees
unfolding find_from
find_from-cases name available [] = inr (
  _,
  refl,
  (tt, ap (λ (l : List Str). record { name = name; available = l }) (sym (append-nil available))),
)
find_from-cases name available (wt ∷ wts) = elim (Bool-cases wt.is_main) [
  | inl m ↦ elim (find_from-cases name available wts) [
    | inl (v, e, f) ↦ inl (v, rw m e, passed name wt v wts (ground (arith, m)) f)
    | inr (e, h, (none_named, same)) ↦ inr (e, rw m h, ((ground (arith, m), none_named), rw m same))
  ]
  | inr m ↦ elim (Bool-cases (wt.branch == name)) [
    | inl n ↦ inl (
      wt,
      rw (m, n),
      record { before = []; after = wts; position = refl; passed_over = tt; linked = m; named = n },
    )
    | inr n ↦ elim (find_from-cases name (available ++ wt.branch ∷ []) wts) [
      | inl (v, e, f) ↦ inl (v, rw (m, n) e, passed name wt v wts (ground (arith, m, n)) f)
      | inr (e, h, (none_named, same)) ↦ inr (
        e,
        rw (m, n) h,
        (
          (ground (arith, m, n), none_named),
          same
              ∙ rw m (
                  ap (λ (l : List Str). record { name = name; available = l })
                    (append_assoc available (wt.branch ∷ []) (linked_branches wts))),
        ),
      )
    ]
  ]
]

-- The target of a removal is the first linked worktree with the given branch. The main worktree is
-- never it. If there is none, the error lists the branches of all linked worktrees, in order.
pub find_target_worktree_from_list-cases :
    (name : Str) (worktrees : List Worktree)
    → ((wt : Worktree) × (find_target_worktree_from_list name worktrees ≡ ok wt)
        × IsFound name worktrees wt)
      ⊎ ((e : NotFound) × (find_target_worktree_from_list name worktrees ≡ err e)
          × IsMissing name [] worktrees e)
unfolding find_target_worktree_from_list
find_target_worktree_from_list-cases name worktrees = find_from-cases name [] worktrees
