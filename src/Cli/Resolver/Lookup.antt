-- ===== src/Cli/Resolver/Lookup.antt =====
-- The resolver finds the first worktree that a name addresses.
use wtp.Base.{
  ◌≡◌, ◌⊎◌, refl, ap, ◌∙◌, true, false, List, [], ◌∷◌, ◌++◌, arith, inl, inr, Bool-cases,
}
use wtp.Base.Result.{ok, err, Result-cases}
use wtp.Base.Text.{Str}
use wtp.Base.Lists.{All}
use wtp.Git.{Worktree}
use wtp.Cli.Resolver.{matches, NotFound, find_path, normalised, resolve_worktree_path_by_name}
use wtp.Cli.Resolver.{available_worktree_names}

-- A worktree of the list that a name addresses, with the ones before it, which it does not address.
pub record IsFirst (name : Str) (worktrees : List Worktree) (path : Str) : Type 0 where
  pub before : List Worktree
  pub found : Worktree
  pub after : List Worktree
  pub position : worktrees ≡ before ++ found ∷ after
  pub passed_over : All (λ wt. matches name wt ≡ false) before
  pub addressed : matches name found ≡ true
  pub path_of : found.path ≡ path

find_path-IsFirst :
    (name : Str) (missing : NotFound) (worktrees : List Worktree) (path : Str)
    → find_path name missing worktrees ≡ ok path
    → IsFirst name worktrees path
unfolding find_path
find_path-IsFirst name missing [] path h = cc
find_path-IsFirst name missing (wt ∷ wts) path h = elim (Bool-cases (matches name wt)) [
  | inl e ↦ record {
    before = [];
    found = wt;
    after = wts;
    position = refl;
    passed_over = tt;
    addressed = e;
    path_of = ground (arith, e);
  }
  | inr e ↦
      let rest = find_path-IsFirst name missing wts path (rw e at h) in
      record {
        before = wt ∷ rest.before;
        found = rest.found;
        after = rest.after;
        position = ap (λ (l : List Worktree). wt ∷ l) rest.position;
        passed_over = (e, rest.passed_over);
        addressed = rest.addressed;
        path_of = rest.path_of;
      }
]

find_path-err :
    (name : Str) (missing : NotFound) (worktrees : List Worktree) (e : NotFound)
    → find_path name missing worktrees ≡ err e
    → (e ≡ missing) × All (λ wt. matches name wt ≡ false) worktrees
unfolding find_path
find_path-err name missing [] e h = (cc, tt)
find_path-err name missing (wt ∷ wts) e h = ground (arith, find_path-err name missing wts e)

-- A name is resolved to the path of the first worktree that it addresses: the main one for "@" and
-- "root", else the one with that branch, a `*` at the end of the name left away. If it addresses no
-- worktree at all, it is refused, and the error lists the names there are.
pub resolve-cases :
    (name : Str) (worktrees : List Worktree)
    → ((path : Str) × (resolve_worktree_path_by_name name worktrees ≡ ok path)
        × IsFirst (normalised name) worktrees path)
      ⊎ ((resolve_worktree_path_by_name name worktrees
            ≡ err
                (record { name = normalised name; available = available_worktree_names worktrees }))
          × All (λ wt. matches (normalised name) wt ≡ false) worktrees)
unfolding resolve_worktree_path_by_name
resolve-cases name worktrees =
    let n = normalised name in
    let missing : NotFound = record { name = n; available = available_worktree_names worktrees } in
    elim (Result-cases (find_path n missing worktrees)) [
      | inl (path, e) ↦ inl (path, e, find_path-IsFirst n missing worktrees path e)
      | inr (f, e) ↦
          let (same, none_addressed) = find_path-err n missing worktrees f e in
          inr (e ∙ ap err same, none_addressed)
    ]
