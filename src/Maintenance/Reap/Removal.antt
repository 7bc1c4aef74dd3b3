-- ===== src/Maintenance/Reap/Removal.antt =====
-- Which entries a reap removes from the state file, and what it counts.
use wtp.Base.{
  ℕ, suc, ◌+◌, ◌≡◌, refl, sym, ap, ◌∙◌, Bool, false, Option, none, some, [], ◌∷◌, arith, Bool-cases,
  inl, inr, if◌then◌else◌,
}
use wtp.Base.Result.{Result, ok, err, ok-injective}
use wtp.Base.Text.{Str, ◌==◌}
use wtp.Base.Text.Laws.{eq_iff}
use wtp.Base.Dict.{Dict, NodupKeys, lookup, erase, lookup-erase}
use wtp.Store.{Codec, IsFaithful, Disk, Faults, StoreError, with_lock}
use wtp.Store.Atomic.{with_lock-IsMutation, load-no_faults}
use wtp.State.{WorktreeState, State, empty_state, is_legacy, load_state}
use wtp.State.Entries.{HoldsState}
use wtp.Maintenance.Reap.{
  is_expired, is_reapable, any_reapable, reap_entries, reaped, legacy_of, reap_locked, reap_loaded,
  reap,
}

-- The entry that a reap leaves of an entry.
abbrev pub kept : ℕ → ℕ → Option WorktreeState → Option WorktreeState
kept now retention none = none
kept now retention (some ws) = if is_reapable now retention ws then none else some ws

-- The number of legacy entries.
abbrev pub legacies : Dict WorktreeState → ℕ
legacies [] = 0
legacies ((key, ws) ∷ m) = if is_legacy ws then suc (legacies m) else legacies m

-- Whether the entry, if there is one, goes.
due : ℕ → ℕ → Option WorktreeState → Bool
due now retention none = false
due now retention (some ws) = is_reapable now retention ws

kept-due :
    (now retention : ℕ) (o : Option WorktreeState)
    → (if due now retention o then none else o) ≡ kept now retention o
unfolding due
kept-due now retention none = refl
kept-due now retention (some ws) = refl

lookup-reap_entries :
    (now retention : ℕ) (j : Str) (rest : Dict WorktreeState) (m : Dict WorktreeState) (n : ℕ)
    → NodupKeys rest
    → lookup j (reap_entries now retention rest (m, n)).0
      ≡ (if due now retention (lookup j rest) then none else lookup j m)
unfolding reap_entries lookup due
lookup-reap_entries now retention j [] m n h = refl
lookup-reap_entries now retention j ((k, ws) ∷ rest) m n (fresh, h) =
    let after =
      λ (m' : Dict WorktreeState) (n' : ℕ). lookup-reap_entries now retention j rest m' n' h in
    elim (Bool-cases (is_legacy ws)) [
      | inl l ↦ ground (arith, l, after (erase k m) (n + 1), lookup-erase k j m, eq_iff k j, fresh)
      | inr l ↦ elim (Bool-cases (is_expired now retention ws)) [
        | inl e ↦ ground (arith, l, e, after (erase k m) n, lookup-erase k j m, eq_iff k j, fresh)
        | inr e ↦ ground (arith, l, e, after m n, eq_iff k j, fresh)
      ]
    ]

count-reap_entries :
    (now retention : ℕ) (rest : Dict WorktreeState) (m : Dict WorktreeState) (n : ℕ)
    → (reap_entries now retention rest (m, n)).1 ≡ n + legacies rest
unfolding reap_entries
count-reap_entries now retention [] m n = omega arith
count-reap_entries now retention ((k, ws) ∷ rest) m n = ground (
  arith,
  count-reap_entries now retention rest (erase k m) (n + 1),
  count-reap_entries now retention rest (erase k m) n,
  count-reap_entries now retention rest m n,
)

lookup-reaped :
    (now retention : ℕ) (j : Str) (st : State)
    → NodupKeys st.worktrees
    → lookup j (reaped now retention st).0 ≡ kept now retention (lookup j st.worktrees)
lookup-reaped now retention j st h =
    lookup-reap_entries now retention j st.worktrees st.worktrees 0 h
    ∙ kept-due now retention (lookup j st.worktrees)

pub count-reaped :
    (now retention : ℕ) (st : State) → (reaped now retention st).1 ≡ legacies st.worktrees
count-reaped now retention st =
    omega (arith, count-reap_entries now retention st.worktrees st.worktrees 0)

-- Where nothing is due, everything is kept and nothing is legacy.
kept-any_reapable :
    (now retention : ℕ) (j : Str) (m : Dict WorktreeState)
    → any_reapable now retention m ≡ false
    → kept now retention (lookup j m) ≡ lookup j m
unfolding any_reapable lookup
kept-any_reapable now retention j [] h = refl
kept-any_reapable now retention j ((k, ws) ∷ m) h = elim (Bool-cases (k == j)) [
  | inl e ↦ rw e (ground (arith, h))
  | inr e ↦ rw e (kept-any_reapable now retention j m (ground (arith, h)))
]

pub legacies-any_reapable :
    (now retention : ℕ) (m : Dict WorktreeState)
    → any_reapable now retention m ≡ false
    → legacies m ≡ 0
unfolding any_reapable
legacies-any_reapable now retention [] h = refl
legacies-any_reapable now retention ((k, ws) ∷ m) h =
    let before = legacies-any_reapable now retention m (ground (arith, h)) in
    ground (arith, before, h)

module _ (codec : Codec State) (faithful : IsFaithful codec) (now retention : ℕ) where
  -- What a reap that counts `n` has done.
  pub record IsReaped (n : ℕ) (before after : Disk) : Type 0 where
    pub old : State
    pub new : State
    pub was : HoldsState codec faithful before old
    pub holds : HoldsState codec faithful after new
    pub entries : (j : Str) → lookup j new.worktrees ≡ kept now retention (lookup j old.worktrees)
    pub legacy : n ≡ legacies old.worktrees

  module _ (faults : Faults) (disk : Disk) where
    abbrev removal : State → Result StoreError State
    removal cur = ok (record { worktrees = (reaped now retention cur).0 })

    reap_locked-IsReaped :
        (st : State) (n : ℕ)
        → load_state codec faults disk ≡ ok st
        → ((st : State) → HoldsState codec faithful disk st → NodupKeys st.worktrees)
        → (written : Result StoreError (Unit {0}) × Disk)
        → with_lock codec empty_state removal faults disk ≡ written
        → (reap_locked codec now retention faults disk written).0 ≡ ok n
        → IsReaped n disk (reap_locked codec now retention faults disk written).1
    unfolding reap_locked load_state legacy_of
    reap_locked-IsReaped st n l unique (err e, disk') w h = cc h
    reap_locked-IsReaped st n l unique (ok _, disk') w h =
        let m =
          with_lock-IsMutation codec faithful empty_state removal faults disk (ap (λ p. p.0) w) in
        let read = load-no_faults codec faithful empty_state faults disk st l in
        let loaded : m.current ≡ st = ok-injective (sym m.was ∙ read) in
        record {
          old = st;
          new = m.updated;
          was = read;
          holds = rw (sym (ap (λ (p : Result StoreError (Unit {0}) × Disk). p.1) w)) m.now;
          entries = λ j.
              rw (sym (ok-injective m.computed))
                (rw loaded (lookup-reaped now retention j st (unique st read)));
          legacy =
              sym (ok-injective h)
              ∙ ap (legacy_of codec now retention) l
              ∙ count-reaped now retention st;
        }

    reap_loaded-IsReaped :
        (loaded : Result StoreError State) (n : ℕ)
        → load_state codec faults disk ≡ loaded
        → ((st : State) → HoldsState codec faithful disk st → NodupKeys st.worktrees)
        → (reap_loaded codec now retention faults disk loaded).0 ≡ ok n
        → IsReaped n disk (reap_loaded codec now retention faults disk loaded).1
    unfolding reap_loaded load_state
    reap_loaded-IsReaped (err e) n l unique h = cc h
    reap_loaded-IsReaped (ok st) n l unique h =
        elim (Bool-cases (any_reapable now retention st.worktrees)) [
          | inl due ↦
              let same : reap_loaded codec now retention faults disk (ok st)
                  ≡ reap_locked codec now retention faults disk
                      (with_lock codec empty_state removal faults disk) =
                rw due in
              rw same (
                reap_locked-IsReaped st n l unique (with_lock codec empty_state removal faults disk)
                  refl (rw same at h))
          | inr idle ↦
              let same : reap_loaded codec now retention faults disk (ok st) ≡ (ok 0, disk) =
                rw idle in
              let read = load-no_faults codec faithful empty_state faults disk st l in
              rw same (record {
                old = st;
                new = st;
                was = read;
                holds = read;
                entries = λ j. sym (kept-any_reapable now retention j st.worktrees idle);
                legacy =
                    sym (ok-injective (rw same at h))
                    ∙ sym (legacies-any_reapable now retention st.worktrees idle);
              })
        ]

    -- A reap that succeeds leaves in the state file the entries that are not legacy and whose
    -- retention has not passed, each as it was, and no other entry; and what it counts is the
    -- number of legacy entries that were in the file. The condition is that a map that is read
    -- holds no key twice, as a Go map cannot.
    pub reap-IsReaped :
        (n : ℕ)
        → ((st : State) → HoldsState codec faithful disk st → NodupKeys st.worktrees)
        → (reap codec now retention faults disk).0 ≡ ok n
        → IsReaped n disk (reap codec now retention faults disk).1
    unfolding reap
    reap-IsReaped n unique h = reap_loaded-IsReaped (load_state codec faults disk) n refl unique h
