-- ===== src/Tests/Codec.antt =====
-- A codec for the state file and the cache file, which writes a text behind its length.
use wtp.Base.{
  ℕ, zero, suc, ◌≡◌, refl, sym, ap, ◌∙◌, Bool, true, false, Option, none, some, [], ◌∷◌, ◌++◌,
  nat_eq,
}
use wtp.Base.Text.{Str}
use wtp.Base.Dict.{Dict}
use wtp.Base.Lists.{length}
use wtp.Store.Success.{IsTotal}
use wtp.Store.{Codec, IsFaithful}
use wtp.State.{WorktreeState, State}
use wtp.Cache.{WorktreeCache, Cache}

abbrev pub put_text : Str → Str → Str
put_text s rest = length s ∷ (s ++ rest)

abbrev put_flag : Bool → Str → Str
put_flag true rest = 1 ∷ rest
put_flag false rest = 0 ∷ rest

module _ {A : Type 0} where
  abbrev with_items : ℕ → Str → (Str → Str → Option A) → Option A
  with_items zero t k = k [] t
  with_items (suc n) [] k = none
  with_items (suc n) (c ∷ t) k = with_items n t (λ s. k (c ∷ s))

  abbrev pub with_text : Str → (Str → Str → Option A) → Option A
  with_text [] k = none
  with_text (n ∷ t) k = with_items n t k

  abbrev pub with_number : Str → (ℕ → Str → Option A) → Option A
  with_number [] k = none
  with_number (n ∷ t) k = k n t

  abbrev with_flag : Str → (Bool → Str → Option A) → Option A
  with_flag [] k = none
  with_flag (n ∷ t) k = k (nat_eq n 1) t

  pub with_items-append :
      (s rest : Str) (k : Str → Str → Option A) → with_items (length s) (s ++ rest) k ≡ k s rest
  with_items-append [] rest k = refl
  with_items-append (c ∷ s) rest k = with_items-append s rest (λ t. k (c ∷ t))

  with_flag-put_flag :
      (b : Bool) (rest : Str) (k : Bool → Str → Option A) → with_flag (put_flag b rest) k ≡ k b rest
  with_flag-put_flag true rest k = refl
  with_flag-put_flag false rest k = refl

module _ {V : Type 0} (put_value : V → Str → Str)
    (with_value : Str → (V → Str → Option (Dict V)) → Option (Dict V)) where
  abbrev put_entries : Dict V → Str
  put_entries [] = []
  put_entries ((key, v) ∷ m) = put_text key (put_value v (put_entries m))

  abbrev cons_entry : Str → V → Option (Dict V) → Option (Dict V)
  cons_entry key v none = none
  cons_entry key v (some m) = some ((key, v) ∷ m)

  abbrev get_entries : ℕ → Str → Option (Dict V)
  get_entries zero t = some []
  get_entries (suc n) t =
      with_text t (λ key t'. with_value t' (λ v t''. cons_entry key v (get_entries n t'')))

  abbrev get_dict : Str → Option (Dict V)
  get_dict [] = none
  get_dict (n ∷ t) = get_entries n t

  get_entries-put_entries :
      ((v : V) (rest : Str) (k : V → Str → Option (Dict V))
        → with_value (put_value v rest) k ≡ k v rest)
      → (m : Dict V) → get_entries (length m) (put_entries m) ≡ some m
  get_entries-put_entries law [] = refl
  get_entries-put_entries law ((key, v) ∷ m) =
      with_items-append key (put_value v (put_entries m))
        (λ key' t. with_value t (λ v' t'. cons_entry key' v' (get_entries (length m) t')))
      ∙ law v (put_entries m) (λ v' t'. cons_entry key v' (get_entries (length m) t'))
      ∙ ap (cons_entry key v) (get_entries-put_entries law m)

abbrev put_state : WorktreeState → Str → Str
put_state ws rest = put_flag ws.archived (
    ws.archived_at
    ∷ ws.pr_closed_at
    ∷ put_text ws.commit_sha
        (put_text ws.branch (put_text ws.worktree_path (put_flag ws.suppress_auto_archive rest))))

module _ {A : Type 0} where
  abbrev with_state : Str → (WorktreeState → Str → Option A) → Option A
  with_state t k = with_flag t (λ archived t1. with_number t1 (λ archived_at t2.
      with_number t2 (λ pr_closed_at t3. with_text t3 (λ commit_sha t4. with_text t4 (λ branch t5.
        with_text t5 (λ worktree_path t6. with_flag t6 (λ suppressed t7.
          k
            (record {
              archived = archived;
              archived_at = archived_at;
              pr_closed_at = pr_closed_at;
              commit_sha = commit_sha;
              branch = branch;
              worktree_path = worktree_path;
              suppress_auto_archive = suppressed;
            })
            t7)))))))

  with_state-put_state :
      (ws : WorktreeState) (rest : Str) (k : WorktreeState → Str → Option A)
      → with_state (put_state ws rest) k ≡ k ws rest
  with_state-put_state ws rest k =
      with_flag-put_flag ws.archived _ _
      ∙ with_items-append ws.commit_sha _ _
      ∙ with_items-append ws.branch _ _
      ∙ with_items-append ws.worktree_path _ _
      ∙ with_flag-put_flag ws.suppress_auto_archive rest _

abbrev state_of : Option (Dict WorktreeState) → Option State
state_of none = none
state_of (some m) = some (record { worktrees = m })

abbrev pub state_codec : Codec State
state_codec = record {
  encode = λ st. some (length st.worktrees ∷ put_entries put_state with_state st.worktrees);
  decode = λ bytes. state_of (get_dict put_state with_state bytes);
}

pub state_codec-IsFaithful : IsFaithful state_codec
state_codec-IsFaithful st bytes h =
    sym (ap read h)
    ∙ ap state_of (get_entries-put_entries put_state with_state with_state-put_state st.worktrees)
  where
    read : Option Str → Option State
    read none = none
    read (some text) = state_codec.decode text

abbrev put_cache : WorktreeCache → Str → Str
put_cache e rest =
    e.pr_number
    ∷ e.updated_at
    ∷ put_text e.pr_state (put_text e.pr_title (put_text e.ci_status rest))

module _ {A : Type 0} where
  abbrev with_cache : Str → (WorktreeCache → Str → Option A) → Option A
  with_cache t k = with_number t (λ pr_number t1. with_number t1 (λ updated_at t2.
      with_text t2 (λ pr_state t3. with_text t3 (λ pr_title t4. with_text t4 (λ ci_status t5.
        k
          (record {
            pr_number = pr_number;
            pr_state = pr_state;
            pr_title = pr_title;
            ci_status = ci_status;
            updated_at = updated_at;
          })
          t5)))))

  with_cache-put_cache :
      (e : WorktreeCache) (rest : Str) (k : WorktreeCache → Str → Option A)
      → with_cache (put_cache e rest) k ≡ k e rest
  with_cache-put_cache e rest k =
      with_items-append e.pr_state _ _
      ∙ with_items-append e.pr_title _ _
      ∙ with_items-append e.ci_status _ _

abbrev cache_of : Option (Dict WorktreeCache) → Option Cache
cache_of none = none
cache_of (some m) = some (record { worktrees = m })

abbrev pub cache_codec : Codec Cache
cache_codec = record {
  encode = λ c. some (length c.worktrees ∷ put_entries put_cache with_cache c.worktrees);
  decode = λ bytes. cache_of (get_dict put_cache with_cache bytes);
}

pub cache_codec-IsFaithful : IsFaithful cache_codec
cache_codec-IsFaithful c bytes h =
    sym (ap read h)
    ∙ ap cache_of (get_entries-put_entries put_cache with_cache with_cache-put_cache c.worktrees)
  where
    read : Option Str → Option Cache
    read none = none
    read (some text) = cache_codec.decode text

pub state_codec-IsTotal : IsTotal state_codec
state_codec-IsTotal st = (_, refl)

pub cache_codec-IsTotal : IsTotal cache_codec
cache_codec-IsTotal c = (_, refl)
