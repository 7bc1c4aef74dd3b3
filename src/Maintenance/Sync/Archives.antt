-- ===== src/Maintenance/Sync/Archives.antt =====
-- When a sync archives a worktree, and what it leaves as it was.
use mathlib.Core.Option.{some-injective}
use wtp.Base.{
  ◌≡◌, ◌≢◌, refl, ap, ◌∙◌, sym, Bool, true, false, none, some, List, [], ◌∷◌, ◌++◌, arith,
  Bool-cases, inl, inr,
}
use wtp.Base.Result.{Result, ok, err, Result-cases}
use wtp.Base.Text.{Str, str, has_prefix, cut_prefix}
use wtp.Base.Text.Laws.{eq_iff, cut_prefix-append}
use wtp.Base.Lists.{All}
use wtp.Remote.{storage_path}
use wtp.Github.{PrInfo}
use wtp.Store.{IsFaithful, StoreError}
use wtp.State.Entries.{IsEdit}
use wtp.State.Archiving.{World, perform_archive}
use wtp.State.Archiving.Order.{perform_archive-err, perform_archive-IsEdit}
use wtp.Maintenance.Sync.{Archived, path_in_use, SyncWorld, Runner}
use wtp.Maintenance.Checks.{BranchCheck}
use wtp.Maintenance.Sync.{archive_state, archived_as, try_clean, try_archive}

-- A directory that is neither `path` nor under it.
abbrev pub IsOutside : Str → Str → Type 0
IsOutside path p = (p ≢ path) × ((rest : Str) → p ≢ (path ++ str "/") ++ rest)

path_in_use-IsOutside :
    (path : Str) (busy : List Str) → path_in_use path busy ≡ false → All (IsOutside path) busy
unfolding path_in_use has_prefix
path_in_use-IsOutside path [] h = tt
path_in_use-IsOutside path (p ∷ busy) h = (
  (
    λ same. ground (arith, h, eq_iff p path, same),
    λ rest same.
        let found =
          ap (cut_prefix (path ++ str "/")) same ∙ cut_prefix-append (path ++ str "/") rest in
        ground (arith, h, found),
  ),
  path_in_use-IsOutside path busy (ground (arith, h)),
)

-- What is told of an archive.
abbrev pub report : {G : Type 0} → Runner G → BranchCheck → PrInfo → Archived
report r c pr = record {
  repo = storage_path r.repo_id;
  branch = c.wt.branch;
  pr_number = pr.number;
  pr_state = pr.state;
}

module _ {G : Type 0} (r : Runner G) (faithful : IsFaithful r.state_codec) where
  -- The worktree was clean and nothing ran in it, git did its work, and the file has the entry.
  pub record IsArchived (c : BranchCheck) (pr : PrInfo) (a : Archived) (before after : SyncWorld G)
      : Type 0 where
    pub reported : a ≡ report r c pr
    pub clean : r.is_worktree_dirty c.wt.path before.world.git ≡ ok false
    pub idle : All (IsOutside c.wt.path) r.busy
    pub edit :
        IsEdit r.state_codec faithful c.key
          (λ _. archive_state r c.wt pr)
          before.world.disk
          after.world.disk

  -- Git and the state file are as they were.
  abbrev pub IsUntouched : SyncWorld G → SyncWorld G → Type 0
  IsUntouched before after =
      (after.world.git ≡ before.world.git) × (after.world.disk.file ≡ before.world.disk.file)

  module _ (c : BranchCheck) (pr : PrInfo) (s : SyncWorld G) where
    abbrev performed : Result StoreError Bool × World G
    performed =
        perform_archive r.execute r.state_codec r.faults c.key (archive_state r c.wt pr) s.world

    archived_as-some :
        (a : Archived) (p : Result StoreError Bool × World G)
        → (archived_as r c pr s p).0 ≡ some a
        → ((clean : Bool) × (p.0 ≡ ok clean))
          × (((archived_as r c pr s p).1.world ≡ p.1) × (a ≡ report r c pr))
    unfolding archived_as
    archived_as-some a (ok clean, w) h = ((clean, refl), (refl, sym (some-injective _ a h)))
    archived_as-some a (err e, w) h = cc h

    archived_as-none :
        (p : Result StoreError Bool × World G)
        → (archived_as r c pr s p).0 ≡ none
        → ((e : StoreError) × (p.0 ≡ err e)) × ((archived_as r c pr s p).1.world ≡ p.1)
    unfolding archived_as
    archived_as-none (ok clean, w) h = cc h
    archived_as-none (err e, w) h = ((e, refl), refl)

    try_archive-performed :
        r.is_worktree_dirty c.wt.path s.world.git ≡ ok false
        → path_in_use c.wt.path r.busy ≡ false
        → try_archive r c pr s ≡ archived_as r c pr s performed
    unfolding try_archive try_clean
    try_archive-performed d b = rw (d, b) refl

    pub try_archive-IsArchived :
        (a : Archived)
        → (try_archive r c pr s).0 ≡ some a
        → IsArchived c pr a s (try_archive r c pr s).1
    unfolding try_archive try_clean
    try_archive-IsArchived a h = elim (Result-cases (r.is_worktree_dirty c.wt.path s.world.git)) [
      | inr (e, d) ↦ ground (arith, d)
      | inl (true, d) ↦ ground (arith, d)
      | inl (false, d) ↦ elim (Bool-cases (path_in_use c.wt.path r.busy)) [
        | inl b ↦ ground (arith, d, b)
        | inr b ↦
            let same = try_archive-performed d b in
            let ((clean, o), (left, told_as)) = archived_as-some a performed (rw same at h) in
            record {
              clean = d;
              reported = told_as;
              idle = path_in_use-IsOutside c.wt.path r.busy b;
              edit =
                  rw (same, left)
                    (perform_archive-IsEdit r.execute r.state_codec faithful
                      (archive_state r c.wt pr) s.world r.faults c.key clean o).0;
            }
      ]
    ]

    -- A sync that does not archive a worktree leaves git and the state file as they were.
    pub try_archive-IsUntouched :
        (try_archive r c pr s).0 ≡ none → IsUntouched s (try_archive r c pr s).1
    unfolding try_archive try_clean
    try_archive-IsUntouched h = elim (Result-cases (r.is_worktree_dirty c.wt.path s.world.git)) [
      | inr (e, d) ↦ rw d (refl, refl)
      | inl (true, d) ↦ rw d (refl, refl)
      | inl (false, d) ↦ elim (Bool-cases (path_in_use c.wt.path r.busy)) [
        | inl b ↦ rw (d, b) (refl, refl)
        | inr b ↦
            let same = try_archive-performed d b in
            let ((e, o), left) = archived_as-none performed (rw same at h) in
            let (git, warnings, file) =
              perform_archive-err r.execute r.state_codec faithful (archive_state r c.wt pr) s.world
                r.faults c.key e o in
            rw (same, left) (git, file)
      ]
    ]
