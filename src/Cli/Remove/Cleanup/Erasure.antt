-- ===== src/Cli/Remove/Cleanup/Erasure.antt =====
-- Which entries the clean-up after a removal erases.
use wtp.Base.{◌≡◌, refl, none, some, false, [], Option, if◌then◌else◌}
use wtp.Base.Result.{ok}
use wtp.Base.Text.{Str, ◌==◌}
use wtp.Base.Dict.{lookup, erase, lookup-erase}
use wtp.Remote.{RepoIdentifier, parse, state_key}
use wtp.Store.{IsFaithful}
use wtp.Store.Atomic.{no_faults}
use wtp.Store.Success.{IsTotal, with_lock-written, load-written}
use wtp.State.{State, empty_state, modify, load_state}
use wtp.Cache
use wtp.Cache.{Cache, empty_cache, load_cache}
use wtp.Cli.Remove.{RemoveWorld, Around}
use wtp.Cli.Remove.Cleanup.{
  erase_entry, erased, branch_key, key_of, cleanup_worktree_state_and_cache,
}

module _ {G : Type 0} (around : Around G) (branch : Str) (w : RemoveWorld G) where
  erased-printed : (o : Option Str) → (erased around o w).printed ≡ w.printed
  unfolding erased
  erased-printed none = refl
  erased-printed (some key) = refl

  pub cleanup-printed : (cleanup_worktree_state_and_cache around branch w).printed ≡ w.printed
  unfolding cleanup_worktree_state_and_cache
  cleanup-printed = erased-printed (branch_key around branch w.git)

  module _ (state_faithful : IsFaithful around.state_codec)
      (state_total : IsTotal around.state_codec) (cache_faithful : IsFaithful around.cache_codec)
      (cache_total : IsTotal around.cache_codec) where
    -- Both stores can be read, and hold under no other key than before, and nothing under `key`.
    pub record IsErased (key : Str) (st : State) (c : Cache) (after : RemoveWorld G) : Type 0 where
      pub new_state : State
      pub new_cache : Cache
      pub state_now : load_state around.state_codec no_faults after.state ≡ ok new_state
      pub cache_now : load_cache around.cache_codec no_faults after.cache ≡ ok new_cache
      pub state_entries :
          (j : Str)
          → lookup j new_state.worktrees ≡ (if key == j then none else lookup j st.worktrees)
      pub cache_entries :
          (j : Str)
          → lookup j new_cache.worktrees ≡ (if key == j then none else lookup j c.worktrees)

    branch_key-state_key :
        (url : Str) (repo_id : RepoIdentifier)
        → (branch == []) ≡ false
        → around.remote_url w.git ≡ some url
        → parse around.url_parse url ≡ ok repo_id
        → branch_key around branch w.git ≡ some (state_key repo_id branch)
    unfolding branch_key key_of
    branch_key-state_key url repo_id given remote named = rw (given, remote, key_of, named) refl

    -- Where both stores work and can be read, the branch is given, and the remote URL is one that
    -- names a repository: the clean-up erases from the state and from the cache the entry under the
    -- state key of that repository and branch, and changes no other entry.
    pub cleanup-IsErased :
        (url : Str) (repo_id : RepoIdentifier) (st : State) (c : Cache)
        → (branch == []) ≡ false
        → around.state_faults ≡ no_faults
        → around.cache_faults ≡ no_faults
        → around.remote_url w.git ≡ some url
        → parse around.url_parse url ≡ ok repo_id
        → load_state around.state_codec no_faults w.state ≡ ok st
        → load_cache around.cache_codec no_faults w.cache ≡ ok c
        → IsErased
            (state_key repo_id branch)
            st
            c
            (cleanup_worktree_state_and_cache around branch w)
    unfolding cleanup_worktree_state_and_cache erased modify load_state load_cache Cache.delete
        Cache.modify
    cleanup-IsErased url repo_id st c given sf cf remote named ls lc =
        let key = state_key repo_id branch in
        let k = branch_key-state_key url repo_id given remote named in
        let states =
          with_lock-written around.state_codec state_total empty_state
            (λ s. ok (erase_entry around key s)) w.state st (erase_entry around key st) ls refl in
        let caches =
          with_lock-written around.cache_codec cache_total empty_cache
            (λ (s : Cache). ok (record { worktrees = erase key s.worktrees })) w.cache c
            (record { worktrees = erase key c.worktrees }) lc refl in
        rw (k, sf, cf, states, caches)
          (record {
            new_state = erase_entry around key st;
            new_cache = record { worktrees = erase key c.worktrees };
            state_now = load-written around.state_codec state_total empty_state state_faithful _;
            cache_now = load-written around.cache_codec cache_total empty_cache cache_faithful _;
            state_entries = λ j. lookup-erase key j st.worktrees;
            cache_entries = λ j. lookup-erase key j c.worktrees;
          })
