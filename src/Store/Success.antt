-- ===== src/Store/Success.antt =====
-- A mutation of a store succeeds where nothing in the file system fails.
use wtp.Base.{◌≡◌, ap, ◌∙◌, some, none}
use wtp.Base.Result.{Result, ok}
use wtp.Base.Text.{Str}
use wtp.Store.{Codec, IsFaithful, Disk, StoreError, load, write_atomic, update, with_lock}
use wtp.Store.Atomic.{no_faults}

-- Every value can be encoded.
abbrev pub IsTotal : {T : Type 0} → Codec T → Type 0
IsTotal {T} c = (x : T) → (bytes : Str) × (c.encode x ≡ some bytes)

module _ {T : Type 0} (codec : Codec T) (total : IsTotal codec) where
  -- The file holds the encoded value, and no `.tmp` is left.
  abbrev pub written : T → Disk
  written x = record { file = some (total x).0; tmp = none }

  write_atomic-no_faults :
      (x : T) (disk : Disk) → write_atomic codec no_faults x disk ≡ (ok tt, written x)
  unfolding write_atomic
  write_atomic-no_faults x disk = rw ((total x).1, write_atomic)

  -- What was written is read back.
  pub load-written :
      (empty : T) (faithful : IsFaithful codec) (x : T)
      → load codec empty no_faults (written x) ≡ ok x
  unfolding load
  load-written empty faithful x = rw (faithful x (total x).0 (total x).1)

  module _ (empty : T) (fn : T → Result StoreError T) where
    -- Where nothing fails and every value can be encoded, a mutation whose function accepts what is in
    -- the file succeeds, and leaves in the file the bytes of what the function made of it, and no
    -- temporary file.
    pub with_lock-written :
        (disk : Disk) (x y : T)
        → load codec empty no_faults disk ≡ ok x
        → fn x ≡ ok y
        → with_lock codec empty fn no_faults disk ≡ (ok tt, written y)
    unfolding with_lock
    with_lock-written disk x y l f =
        ap (λ (r : Result StoreError T). update codec fn no_faults r disk) l
        ∙ rw (f, update) (write_atomic-no_faults y disk)
