-- ===== src/Cli/List/Archived.antt =====
-- Which branches `wtp list` takes for archived, and the rows that `--all` adds for them.
use mathlib.Core.Path.{subst}
use wtp.Base.{
  ◌≡◌, refl, sym, ap, ◌∙◌, Bool, true, false, not, ◌&&◌, ◌||◌, Option, none, some, List, [], ◌∷◌,
  ◌++◌, if◌then◌else◌, arith, Option-cases, inl, inr, Bool-cases,
}
use wtp.Base.Dict.{Dict, lookup, in_set, NodupKeys}
use wtp.Base.Text.{Str, ◌==◌, has_prefix, cut_prefix}
use wtp.Base.Text.Laws.{eq_iff, eq_refl, cut_prefix-append, cut_prefix-eq-some}
use wtp.Git.{Worktree}
use wtp.Remote.{RepoIdentifier, storage_path, state_key, parse_state_key, separator}
use wtp.Remote.Keys.{IsSplittable, parse_state_key-state_key}
use wtp.State.{WorktreeState}
use wtp.Cli.List.{
  with_found, row_for, archived_branch, archived_branches, branches_of, synthetic_row,
  synthetic_rows, insert_row, sort_rows, append_archived_entries,
}

-- What the state says of a branch: the entry under its key is archived.
abbrev pub is_archived : Option WorktreeState → Bool
is_archived none = false
is_archived (some ws) = ws.archived

found_or_not :
    (branch rest : Str) (ws : WorktreeState) (found : List Str) (o : Option WorktreeState)
    → (branch == []) ≡ false
    → (rest ≡ branch → o ≡ none)
    → in_set branch found ≡ is_archived o
    → in_set branch (with_found (if not ws.archived || rest == [] then none else some rest) found)
      ≡ is_archived (if rest == branch then some ws else o)
found_or_not branch rest ws found o given fresh ih = elim (Bool-cases (rest == branch)) [
  | inl e ↦
      let same = (eq_iff rest branch).0 e in
      let empty = ap (λ (b : Str). b == []) same ∙ given in
      elim (Bool-cases ws.archived) [
        | inl a ↦ rw (a, empty, e) refl
        | inr a ↦ rw (a, e) (ih ∙ ap is_archived (fresh same))
      ]
  | inr e ↦ elim (Bool-cases (not ws.archived || rest == [])) [
    | inl n ↦ rw (n, e) ih
    | inr n ↦ rw (n, e) ih
  ]
]

module _ (repo_id : RepoIdentifier) (splittable : IsSplittable (storage_path repo_id)) where
  key_of :
      (key rest : Str)
      → cut_prefix (storage_path repo_id ++ separator) key ≡ some rest
      → key ≡ state_key repo_id rest
  unfolding state_key
  key_of key rest h = cut_prefix-eq-some (storage_path repo_id ++ separator) key rest h

  prefixed :
      (branch : Str)
      → has_prefix (storage_path repo_id ++ separator) (state_key repo_id branch) ≡ true
  unfolding has_prefix state_key
  prefixed branch =
      rw (cut_prefix-append (storage_path repo_id ++ separator) branch, has_prefix) refl

  archived_branch-state_key :
      (branch : Str) (ws : WorktreeState)
      → archived_branch repo_id (state_key repo_id branch) ws
        ≡ (if not ws.archived || branch == [] then none else some branch)
  unfolding archived_branch
  archived_branch-state_key branch ws =
      rw (prefixed branch, parse_state_key-state_key repo_id branch splittable) (ground arith)

  archived_branch-other :
      (key : Str) (ws : WorktreeState)
      → cut_prefix (storage_path repo_id ++ separator) key ≡ none
      → archived_branch repo_id key ws ≡ none
  unfolding archived_branch has_prefix
  archived_branch-other key ws h = rw h (ground arith)

  cut_state_key :
      (branch : Str)
      → cut_prefix (storage_path repo_id ++ separator) (state_key repo_id branch) ≡ some branch
  unfolding state_key
  cut_state_key branch = cut_prefix-append (storage_path repo_id ++ separator) branch

  not_key :
      (branch key : Str)
      → cut_prefix (storage_path repo_id ++ separator) key ≡ none
      → (key == state_key repo_id branch) ≡ false
  not_key branch key h = elim (Bool-cases (key == state_key repo_id branch)) [
    | inr e ↦ e
    | inl e ↦
        let same = (eq_iff key (state_key repo_id branch)).0 e in
        let found = ap (cut_prefix (storage_path repo_id ++ separator)) same in
        let there = cut_state_key branch in cc
  ]

  state_key_eq :
      (branch other : Str)
      → (state_key repo_id other == state_key repo_id branch) ≡ (other == branch)
  state_key_eq branch other = elim (Bool-cases (other == branch)) [
    | inl e ↦
        rw ((eq_iff other branch).0 e, eq_refl (state_key repo_id branch), eq_refl branch) refl
    | inr e ↦ elim (Bool-cases (state_key repo_id other == state_key repo_id branch)) [
      | inr f ↦ f ∙ sym e
      | inl f ↦
          let parts =
            sym (parse_state_key-state_key repo_id other splittable)
            ∙ (ap parse_state_key
                  ((eq_iff (state_key repo_id other) (state_key repo_id branch)).0 f)
                ∙ parse_state_key-state_key repo_id branch splittable) in
          let same = (eq_iff other branch).1 (ap (λ (p : Str × Str). p.1) parts) in cc
    ]
  ]

  archived_here :
      (branch rest : Str) (ws : WorktreeState) (entries : Dict WorktreeState)
      → (branch == []) ≡ false
      → lookup (state_key repo_id rest) entries ≡ none
      → in_set branch (archived_branches repo_id entries)
        ≡ is_archived (lookup (state_key repo_id branch) entries)
      → in_set branch (archived_branches repo_id ((state_key repo_id rest, ws) ∷ entries))
        ≡ is_archived (lookup (state_key repo_id branch) ((state_key repo_id rest, ws) ∷ entries))
  unfolding archived_branches lookup
  archived_here branch rest ws entries given fresh ih =
      rw (archived_branch-state_key rest ws, state_key_eq branch rest)
        (found_or_not branch rest ws (archived_branches repo_id entries)
          (lookup (state_key repo_id branch) entries) given
          (λ same. ap (λ (b : Str). lookup (state_key repo_id b) entries) (sym same) ∙ fresh) ih)

  -- The branches that are taken for archived are those whose entry under their key is.
  in_set-archived_branches :
      (branch : Str) (entries : Dict WorktreeState)
      → (branch == []) ≡ false
      → NodupKeys entries
      → in_set branch (archived_branches repo_id entries)
        ≡ is_archived (lookup (state_key repo_id branch) entries)
  unfolding archived_branches lookup
  in_set-archived_branches branch [] given nodup = refl
  in_set-archived_branches branch ((key, ws) ∷ entries) given (fresh, nodup) =
      elim (Option-cases (cut_prefix (storage_path repo_id ++ separator) key)) [
        | inl e ↦
            rw (archived_branch-other key ws e, not_key branch key e)
              (in_set-archived_branches branch entries given nodup)
        | inr (rest, e) ↦
            subst
              (λ (k : Str).
                in_set branch (archived_branches repo_id ((k, ws) ∷ entries))
                ≡ is_archived (lookup (state_key repo_id branch) ((k, ws) ∷ entries)))
              (sym (key_of key rest e))
              (archived_here branch rest ws entries given
                (ap (λ (k : Str). lookup k entries) (sym (key_of key rest e)) ∙ fresh)
                (in_set-archived_branches branch entries given nodup))
      ]

in_set-append :
    (branch : Str) (xs ys : List Worktree)
    → in_set branch (branches_of (xs ++ ys))
      ≡ (in_set branch (branches_of xs) || in_set branch (branches_of ys))
in_set-append branch [] ys = refl
in_set-append branch (x ∷ xs) ys = ground (arith, in_set-append branch xs ys)

in_set-insert_row :
    (branch : Str) (row : Worktree) (rows : List Worktree)
    → in_set branch (branches_of (insert_row row rows))
      ≡ (row.branch == branch || in_set branch (branches_of rows))
unfolding insert_row
in_set-insert_row branch row [] = refl
in_set-insert_row branch row (other ∷ rows) = ground (arith, in_set-insert_row branch row rows)

in_set-sort_rows :
    (branch : Str) (rows : List Worktree)
    → in_set branch (branches_of (sort_rows rows)) ≡ in_set branch (branches_of rows)
unfolding sort_rows
in_set-sort_rows branch [] = refl
in_set-sort_rows branch (row ∷ rows) =
    in_set-insert_row branch row (sort_rows rows)
    ∙ ap (λ (b : Bool). row.branch == branch || b) (in_set-sort_rows branch rows)

-- One round of the loop for the rows beside one of the loop for the branches.
in_set-row_for :
    (branch : Str) (existing found : List Str) (ws : WorktreeState) (o : Option Str)
    (rows : List Worktree)
    → in_set branch (branches_of rows) ≡ (not (in_set branch existing) && in_set branch found)
    → in_set branch (branches_of (with_found (row_for existing ws o) rows))
      ≡ (not (in_set branch existing) && in_set branch (with_found o found))
in_set-row_for branch existing found ws none rows ih = ih
in_set-row_for branch existing found ws (some b) rows ih = elim (Bool-cases (b == branch)) [
  | inl e ↦
      let same = ap (λ (x : Str). in_set x existing) ((eq_iff b branch).0 e) in
      elim (Bool-cases (in_set b existing)) [
        | inl old ↦ rw (old, ih, sym same ∙ old) refl
        | inr new ↦ rw (new, sym same ∙ new, e) refl
      ]
  | inr e ↦ elim (Bool-cases (in_set b existing)) [
    | inl old ↦ rw (old, e) ih
    | inr new ↦ rw (new, e) ih
  ]
]

in_set-synthetic_rows :
    (branch : Str) (existing : List Str) (repo_id : RepoIdentifier) (entries : Dict WorktreeState)
    → in_set branch (branches_of (synthetic_rows existing repo_id entries))
      ≡ (not (in_set branch existing) && in_set branch (archived_branches repo_id entries))
unfolding synthetic_rows synthetic_row archived_branches
in_set-synthetic_rows branch existing repo_id [] = ground arith
in_set-synthetic_rows branch existing repo_id ((key, ws) ∷ entries) =
    in_set-row_for branch existing (archived_branches repo_id entries) ws
      (archived_branch repo_id key ws) (synthetic_rows existing repo_id entries)
      (in_set-synthetic_rows branch existing repo_id entries)

-- Under `--all` a branch with a name has a row exactly if the rows for git's worktrees have it or the
-- entry of the state under its key is archived, for a repository whose storage path has no `::` and
-- ends in no colon, if no key stands twice in the state.
pub append_archived_entries-branches :
    (branch : Str) (worktrees : List Worktree) (entries : Dict WorktreeState)
    (repo_id : RepoIdentifier)
    → IsSplittable (storage_path repo_id)
    → (branch == []) ≡ false
    → NodupKeys entries
    → in_set branch (branches_of (append_archived_entries worktrees entries repo_id)) ≡ (
        in_set branch (branches_of worktrees)
        || is_archived (lookup (state_key repo_id branch) entries))
unfolding append_archived_entries
append_archived_entries-branches branch worktrees entries repo_id splittable given nodup =
    in_set-append branch worktrees
      (sort_rows (synthetic_rows (branches_of worktrees) repo_id entries))
    ∙ ground (
      arith,
      in_set-sort_rows branch (synthetic_rows (branches_of worktrees) repo_id entries),
      in_set-synthetic_rows branch (branches_of worktrees) repo_id entries,
      in_set-archived_branches repo_id splittable branch entries given nodup,
    )
