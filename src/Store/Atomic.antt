-- ===== src/Store/Atomic.antt =====
-- A mutation of a store happens as a whole or not at all.
use wtp.Base.{◌≡◌, refl, false, none, arith, Option-cases, Bool-cases, inl, inr}
use wtp.Base.Result.{Result, ok, err, Result-cases}
use wtp.Store.{Codec, IsFaithful, Disk, Faults, StoreError, load, write_atomic, update, with_lock}

-- The file system works: nothing fails.
abbrev pub no_faults : Faults
no_faults = record {
  ensure_dir = false;
  lock = false;
  read = false;
  write = none;
  rename = false;
  remove = false;
}

module _ {T : Type 0} (codec : Codec T) (faithful : IsFaithful codec) (empty : T) where
  -- What a reader finds in the file.
  abbrev pub Holds : Disk → T → Type 0
  Holds disk x = load codec empty no_faults disk ≡ ok x

  pub write_atomic-ok :
      (faults : Faults) (x : T) (disk : Disk)
      → (write_atomic codec faults x disk).0 ≡ ok tt
      → Holds (write_atomic codec faults x disk).1 x
  unfolding write_atomic load
  write_atomic-ok faults x disk h = elim (Option-cases (codec.encode x)) [
    | inl e ↦ ground (arith, e)
    | inr (bytes, e) ↦ ground (arith, e, faithful x bytes e)
  ]

  pub write_atomic-err :
      (faults : Faults) (x : T) (disk : Disk) (e : StoreError)
      → (write_atomic codec faults x disk).0 ≡ err e
      → (write_atomic codec faults x disk).1.file ≡ disk.file
  unfolding write_atomic
  write_atomic-err faults x disk e h = ground arith

  pub load-no_faults :
      (faults : Faults) (disk : Disk) (x : T) → load codec empty faults disk ≡ ok x → Holds disk x
  unfolding load
  load-no_faults faults disk x h = ground arith

  module _ (fn : T → Result StoreError T) where
    -- What a mutation that succeeds has read, computed and left in the file.
    pub record IsMutation (before after : Disk) : Type 0 where
      pub current : T
      pub updated : T
      pub was : Holds before current
      pub computed : fn current ≡ ok updated
      pub now : Holds after updated

    update-ok :
        (faults : Faults) (disk : Disk) (loaded : Result StoreError T)
        → load codec empty faults disk ≡ loaded
        → (update codec fn faults loaded disk).0 ≡ ok tt
        → IsMutation disk (update codec fn faults loaded disk).1
    unfolding update
    update-ok faults disk (err e) l h = cc
    update-ok faults disk (ok x) l h = elim (Result-cases (fn x)) [
      | inl (y, e) ↦
          let same : update codec fn faults (ok x) disk ≡ write_atomic codec faults y disk =
            rw (e, update) in
          record {
            current = x;
            updated = y;
            was = load-no_faults faults disk x l;
            computed = e;
            now = rw same (write_atomic-ok faults y disk (rw same at h));
          }
      | inr (y, e) ↦
          let same : update codec fn faults (ok x) disk ≡ (err y, disk) = rw (e, update) in
          cc (rw same at h)
    ]

    -- A mutation that succeeds has read what was in the file, and a reader finds in the file
    -- afterwards what the given function made of it.
    pub with_lock-IsMutation :
        (faults : Faults) (disk : Disk)
        → (with_lock codec empty fn faults disk).0 ≡ ok tt
        → IsMutation disk (with_lock codec empty fn faults disk).1
    unfolding with_lock
    with_lock-IsMutation faults disk h = elim (Bool-cases faults.ensure_dir) [
      | inl d ↦ ground (arith, d)
      | inr d ↦ elim (Bool-cases faults.lock) [
        | inl l ↦ ground (arith, d, l)
        | inr l ↦
            let same : with_lock codec empty fn faults disk
                ≡ update codec fn faults (load codec empty faults disk) disk =
              rw (d, l) in
            rw same (update-ok faults disk (load codec empty faults disk) refl (rw same at h))
      ]
    ]

    -- Whichever step fails, the file keeps its old content.
    pub with_lock-err :
        (faults : Faults) (disk : Disk) (e : StoreError)
        → (with_lock codec empty fn faults disk).0 ≡ err e
        → (with_lock codec empty fn faults disk).1.file ≡ disk.file
    unfolding with_lock write_atomic
    with_lock-err faults disk e h = ground arith
