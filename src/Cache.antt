-- ===== src/Cache.antt =====
-- internal/cache/cache.go: the PR and CI data of worktrees, kept in cache.json by state key.
pub mod Batch
use wtp.Base.{
  ℕ, ◌+◌, Bool, true, false, Option, none, some, List, [], ◌∷◌, if◌then◌else◌, nat_eq, ltb,
}
use wtp.Base.Result.{Result, ok, err}
use wtp.Base.Text.{Str}
use wtp.Base.Dict.{Dict, lookup, insert, erase}
use wtp.Store.{Codec, Disk, Faults, StoreError, load, save, with_lock}

pub record WorktreeCache : Type 0 where
  pub pr_number : ℕ
  pub pr_state : Str
  pub pr_title : Str
  pub ci_status : Str
  pub updated_at : ℕ

pub record Cache : Type 0 where
  pub worktrees : Dict WorktreeCache

abbrev pub empty_cache : Cache
empty_cache = record { worktrees = [] }

abbrev Written : Type 0
Written = Result StoreError (Unit {0}) × Disk

-- `now` is older than `ttl` behind the time of the entry: `time.Since(entry.UpdatedAt) > ttl`.
unfoldable pub is_expired : ℕ → WorktreeCache → ℕ → Bool
is_expired now entry ttl = ltb (entry.updated_at + ttl) now

-- "setting UpdatedAt to the current time for each entry that does not already have one set"
abbrev pub stamped : ℕ → WorktreeCache → WorktreeCache
stamped now entry = record entry {
  updated_at = if nat_eq entry.updated_at 0 then now else entry.updated_at;
}

unfoldable pub put_all : ℕ → Dict WorktreeCache → Dict WorktreeCache → Dict WorktreeCache
put_all now [] m = m
put_all now ((key, entry) ∷ entries) m = put_all now entries (insert key (stamped now entry) m)

abbrev got : Str → Result StoreError Cache → Option WorktreeCache
got key (err e) = none
got key (ok c) = lookup key c.worktrees

module _ (codec : Codec Cache) where
  unfoldable pub load_cache : Faults → Disk → Result StoreError Cache
  unfolding load
  load_cache = load codec empty_cache

  unfoldable pub save_cache : Faults → Cache → Disk → Written
  unfolding save
  save_cache = save codec

  unfoldable pub modify : (Cache → Cache) → Faults → Disk → Written
  unfolding with_lock
  modify fn = with_lock codec empty_cache (λ c. ok (fn c))

  -- `Get`: an unreadable cache has no entry.
  unfoldable pub get : Str → Faults → Disk → Option WorktreeCache
  unfolding load_cache
  get key faults disk = got key (load_cache faults disk)

  unfoldable pub set : ℕ → Str → WorktreeCache → Faults → Disk → Written
  unfolding modify
  set now key entry =
      modify
        (λ c. record { worktrees = insert key (record entry { updated_at = now }) c.worktrees })

  unfoldable pub delete : Str → Faults → Disk → Written
  unfolding modify
  delete key = modify (λ c. record { worktrees = erase key c.worktrees })

  unfoldable pub set_batch : ℕ → Dict WorktreeCache → Faults → Disk → Written
  unfolding modify put_all
  set_batch now entries = modify (λ c. record { worktrees = put_all now entries c.worktrees })
