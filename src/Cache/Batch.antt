-- ===== src/Cache/Batch.antt =====
-- What a reader finds after a batch, a single write and a deletion.
use wtp.Base.{
  ℕ, ◌+◌, ◌<◌, ◌≡◌, ◌↔◌, refl, sym, ap, ◌∙◌, true, Option, none, some, [], ◌∷◌, arith,
  if◌then◌else◌,
}
use wtp.Base.Result.{ok}
use wtp.Base.Text.{Str, ◌==◌}
use wtp.Base.Text.Laws.{eq_iff}
use wtp.Base.Dict.{Dict, NodupKeys, lookup, insert, lookup-insert, lookup-erase}
use wtp.Store.{Codec, IsFaithful, Disk, Faults}
use wtp.Store.Atomic.{no_faults, with_lock-IsMutation}
use wtp.Cache.{WorktreeCache, Cache, empty_cache, load_cache, modify, stamped, put_all, set_batch}
use wtp.Cache.{got, get, set, delete, is_expired}

-- The entry that a batch gives a key, else the one that was there.
abbrev pub batch_or : ℕ → Option WorktreeCache → Option WorktreeCache → Option WorktreeCache
batch_or now none old = old
batch_or now (some entry) old = some (stamped now entry)

lookup-put_all :
    (now : ℕ) (j : Str) (entries m : Dict WorktreeCache)
    → NodupKeys entries
    → lookup j (put_all now entries m) ≡ batch_or now (lookup j entries) (lookup j m)
unfolding put_all lookup
lookup-put_all now j [] m h = refl
lookup-put_all now j ((k, e) ∷ entries) m (fresh, h) =
    lookup-put_all now j entries (insert k (stamped now e) m) h
    ∙ rw (lookup-insert k j (stamped now e) m) (ground (arith, eq_iff k j))

module _ (codec : Codec Cache) (faithful : IsFaithful codec) (faults : Faults) (disk : Disk) where
  -- What a reader finds before and after: `entries` gives an entry from the one that was there.
  pub record IsRewrite (entries : Str → Option WorktreeCache → Option WorktreeCache) (after : Disk)
      : Type 0 where
    pub old : Cache
    pub was : load_cache codec no_faults disk ≡ ok old
    pub now : (j : Str) → get codec j no_faults after ≡ entries j (lookup j old.worktrees)

  modify-IsRewrite :
      (fn : Cache → Cache) (entries : Str → Option WorktreeCache → Option WorktreeCache)
      → ((c : Cache) (j : Str) → lookup j (fn c).worktrees ≡ entries j (lookup j c.worktrees))
      → (modify codec fn faults disk).0 ≡ ok tt
      → IsRewrite entries (modify codec fn faults disk).1
  unfolding modify get load_cache
  modify-IsRewrite fn entries law h =
      let m = with_lock-IsMutation codec faithful empty_cache (λ c. ok (fn c)) faults disk h in
      record {
        old = m.current;
        was = m.was;
        now = λ j. ap (got j) (m.now ∙ sym m.computed) ∙ law m.current j;
      }

  -- After a batch that succeeds every key of the batch has its entry of the batch, with the time of the
  -- batch if it had none, and every other key has what it had.
  set_batch-IsRewrite :
      (now : ℕ) (entries : Dict WorktreeCache)
      → NodupKeys entries
      → (set_batch codec now entries faults disk).0 ≡ ok tt
      → IsRewrite
          (λ j old. batch_or now (lookup j entries) old)
          (set_batch codec now entries faults disk).1
  unfolding set_batch
  set_batch-IsRewrite now entries h =
      modify-IsRewrite _ _ (λ c j. lookup-put_all now j entries c.worktrees h)

  -- After a single write that succeeds the key has the entry with the time of the write, so that it
  -- has expired at a later time exactly if more than the time to live has passed; and no other key
  -- has changed.
  set-IsRewrite :
      (now : ℕ) (key : Str) (entry : WorktreeCache)
      → (set codec now key entry faults disk).0 ≡ ok tt
      → IsRewrite
          (λ j old. if key == j then some (record entry { updated_at = now }) else old)
          (set codec now key entry faults disk).1
        × ((later ttl : ℕ)
            → (is_expired later (record entry { updated_at = now }) ttl ≡ true)
              ↔ (now + ttl < later))
  unfolding set is_expired
  set-IsRewrite now key entry h = (
    modify-IsRewrite _ _
        (λ c j. lookup-insert key j (record entry { updated_at = now }) c.worktrees) h,
    λ later ttl. (λ e. ground arith, λ e. ground arith),
  )

  -- After a deletion that succeeds the key has no entry, and no other key has changed.
  pub delete-IsRewrite :
      (key : Str)
      → (delete codec key faults disk).0 ≡ ok tt
      → IsRewrite (λ j old. if key == j then none else old) (delete codec key faults disk).1
  unfolding delete
  delete-IsRewrite key = modify-IsRewrite _ _ (λ c j. lookup-erase key j c.worktrees)
