-- ===== src/Cli/Archive/Safety.antt =====
-- What `wtp archive` needs before it removes a worktree.
use wtp.Base.{
  ℕ, ◌≡◌, ◌≢◌, ◌⊎◌, refl, sym, ap, ◌∙◌, Bool, true, false, Option, none, some, List, [], ◌∷◌, arith,
  inl, inr, Bool-cases,
}
use wtp.Base.Result.{ok, ◌>>=◌, Result-cases, ok-injective}
use wtp.Base.Text.{Str}
use wtp.Base.Text.Laws.{eq_iff}
use wtp.FilePath.{abs, is_path_within}
use wtp.Git.{Worktree}
use wtp.Store.{Codec}
use wtp.State.{WorktreeState, State}
use wtp.Cli.Resolver.{resolve_worktree_path_by_name}
use wtp.Cli.Archive.{Queries, at_path, usable, not_current, found_path, find_archive_target}
use wtp.Cli.Archive.{unpushed, validate_archive_safety, fresh_state, fresh}

-- The name addresses a worktree that is not the main one and does not hold the working directory.
pub record IsTarget (pwd : Option Str) (branch cwd : Str) (worktrees : List Worktree)
    (wt : Worktree) : Type 0 where
  pub addressed : resolve_worktree_path_by_name branch worktrees ≡ ok wt.path
  pub listed : at_path wt.path worktrees ≡ some wt
  pub linked : wt.is_main ≡ false
  pub target : Str
  pub here : Str
  pub target_is : abs pwd wt.path ≡ some target
  pub here_is : abs pwd cwd ≡ some here
  pub elsewhere : is_path_within target here ≡ false

at_path-path :
    (path : Str) (wts : List Worktree) (wt : Worktree) → at_path path wts ≡ some wt → wt.path ≡ path
unfolding at_path
at_path-path path [] wt h = cc
at_path-path path (v ∷ wts) wt h = ground (arith, eq_iff v.path path, at_path-path path wts wt)

module _ (pwd : Option Str) (branch cwd : Str) (worktrees : List Worktree) where
  not_current-ok :
      (wt v : Worktree) (target here : Option Str)
      → not_current wt target here ≡ ok v
      → (wt ≡ v)
        × ((t : Str) × (h : Str) × (target ≡ some t)
            × (here ≡ some h)
            × (is_path_within t h ≡ false))
  unfolding not_current
  not_current-ok wt v none here h = cc
  not_current-ok wt v (some t) none h = cc
  not_current-ok wt v (some t) (some u) h = elim (Bool-cases (is_path_within t u)) [
    | inl e ↦ ground (arith, e)
    | inr e ↦ (ground (arith, e), (t, u, refl, refl, e))
  ]

  usable-IsTarget :
      (path : Str) (wt : Worktree)
      → resolve_worktree_path_by_name branch worktrees ≡ ok path
      → (o : Option Worktree) → at_path path worktrees ≡ o
      → usable pwd branch cwd o ≡ ok wt
      → IsTarget pwd branch cwd worktrees wt
  unfolding usable
  usable-IsTarget path wt r none e h = cc
  usable-IsTarget path wt r (some v) e h = elim (Bool-cases v.is_main) [
    | inl m ↦ ground (arith, m)
    | inr m ↦
        let (same, (t, u, et, eu, out)) =
          not_current-ok v wt (abs pwd v.path) (abs pwd cwd) (simp m at h) in
        let where_ = at_path-path path worktrees v e in
        rw (← same) (record {
          addressed = r ∙ ap ok (sym where_);
          listed = ap (λ (p : Str). at_path p worktrees) where_ ∙ e;
          linked = m;
          target = t;
          here = u;
          target_is = et;
          here_is = eu;
          elsewhere = out;
        })
  ]

  find_archive_target-IsTarget :
      (wt : Worktree)
      → find_archive_target pwd branch cwd worktrees ≡ ok wt
      → IsTarget pwd branch cwd worktrees wt
  unfolding find_archive_target found_path
  find_archive_target-IsTarget wt h =
      elim (Result-cases (resolve_worktree_path_by_name branch worktrees)) [
        | inl (path, r) ↦ usable-IsTarget path wt r (at_path path worktrees) refl (rw r at h)
        | inr (e, r) ↦ cc (rw r at h)
      ]

-- Without `--force`: nothing uncommitted, and no unpushed commits as far as git can tell.
abbrev pub IsSafe : {G : Type 0} → Queries G → Worktree → G → Type 0
IsSafe queries wt g =
    (queries.is_worktree_dirty wt.path g ≡ ok false)
    × (queries.has_unpushed_commits wt.branch g ≢ ok true)

module _ {G : Type 0} (queries : Queries G) where
  validate_archive_safety-ok :
      (wt : Worktree) (force : Bool) (g : G)
      → validate_archive_safety queries wt force g ≡ ok tt
      → (force ≡ true) ⊎ IsSafe queries wt g
  unfolding validate_archive_safety unpushed
  validate_archive_safety-ok wt true g h = inl refl
  validate_archive_safety-ok wt false g h = inr (ground arith, λ p. ground arith)

  module _ (codec : Codec State) (pwd : Option Str) (now : ℕ) (branch cwd : Str) (force : Bool)
      (worktrees : List Worktree) where
    -- What a fresh archive has found.
    pub record IsArchivable (g : G) (ws : WorktreeState) : Type 0 where
      pub worktree : Worktree
      pub is_target : IsTarget pwd branch cwd worktrees worktree
      pub is_safe : (force ≡ true) ⊎ IsSafe queries worktree g
      pub recorded : ws ≡ fresh_state queries now worktree

    pub fresh-IsArchivable :
        (g : G) (ws : WorktreeState)
        → fresh queries codec pwd now branch cwd force worktrees g ≡ ok ws
        → IsArchivable g ws
    unfolding fresh
    fresh-IsArchivable g ws h = elim (Result-cases (find_archive_target pwd branch cwd worktrees)) [
      | inl (wt, t) ↦
          let h' : (validate_archive_safety queries wt force g >>= λ _.
          ok (fresh_state queries now wt))
              ≡ ok ws =
            rw t at h in
          elim (Result-cases (validate_archive_safety queries wt force g)) [
            | inl (u, v) ↦ record {
              worktree = wt;
              is_target = find_archive_target-IsTarget pwd branch cwd worktrees wt t;
              is_safe = validate_archive_safety-ok wt force g v;
              recorded = sym (ok-injective (rw v at h'));
            }
            | inr (e, v) ↦ cc (rw v at h')
          ]
      | inr (e, t) ↦ cc (rw t at h)
    ]
