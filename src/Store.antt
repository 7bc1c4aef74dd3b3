-- ===== src/Store.antt =====
-- The JSON files behind internal/state and internal/cache: the same code twice, here once over the
-- type `T` of the contents. encoding/json is a codec, and what can go wrong around the file is data.
pub mod Atomic
pub mod Success
use wtp.Base.{◌≡◌, Bool, true, false, Option, none, some, List, if◌then◌else◌}
use wtp.Base.Result.{Result, ok, err, ◌>>=◌}
use wtp.Base.Text.{Str}

-- `json.MarshalIndent` and `json.Unmarshal`, which may fail.
pub record Codec (T : Type 0) : Type 0 where
  pub encode : T → Option Str
  pub decode : Str → Option T

-- What is decoded is what was encoded.
abbrev pub IsFaithful : {T : Type 0} → Codec T → Type 0
IsFaithful {T} c = (x : T) (bytes : Str) → c.encode x ≡ some bytes → c.decode bytes ≡ some x

-- The file and the `.tmp` beside it.
pub record Disk : Type 0 where
  pub file : Option Str
  pub tmp : Option Str

-- The steps that fail. A write that fails leaves something in the `.tmp` file.
pub record Faults : Type 0 where
  pub ensure_dir : Bool
  pub lock : Bool
  pub read : Bool
  pub write : Option (Option Str)
  pub rename : Bool
  pub remove : Bool

pub data StoreError : Type 0 where
  dir_failed lock_failed read_failed decode_failed encode_failed write_failed rename_failed :
      StoreError

module _ {T : Type 0} (codec : Codec T) where
  decoded : Option T → Result StoreError T
  decoded none = err decode_failed
  decoded (some x) = ok x

  contents : T → Option Str → Result StoreError T
  unfolding decoded
  contents empty none = ok empty
  contents empty (some bytes) = decoded (codec.decode bytes)

  -- `Load`: a file that is not there is the empty value.
  unfoldable pub load : T → Faults → Disk → Result StoreError T
  unfolding contents
  load empty faults disk = if faults.read then err read_failed else contents empty disk.file

  write_bytes : Faults → Str → Disk → Result StoreError (Unit {0}) × Disk
  write_bytes faults bytes disk = elim faults.write [
    | some partial ↦ (err write_failed, record disk { tmp = partial })
    | none ↦
        if faults.rename
        then (err rename_failed, record disk { tmp = if faults.remove then some bytes else none })
        else (ok tt, record { file = some bytes; tmp = none })
  ]

  -- `writeAtomic`
  unfoldable pub write_atomic : Faults → T → Disk → Result StoreError (Unit {0}) × Disk
  unfolding write_bytes
  write_atomic faults x disk = elim (codec.encode x) [
    | none ↦ (err encode_failed, disk)
    | some bytes ↦ write_bytes faults bytes disk
  ]

  -- `Save`
  unfoldable pub save : Faults → T → Disk → Result StoreError (Unit {0}) × Disk
  unfolding write_atomic
  save faults x disk =
      if faults.ensure_dir
      then (err dir_failed, disk)
      else if faults.lock
      then (err lock_failed, disk)
      else write_atomic faults x disk

  -- The part of `WithLock` under the lock.
  unfoldable pub update :
      (T → Result StoreError T)
      → Faults
      → Result StoreError T
      → Disk
      → Result StoreError (Unit {0}) × Disk
  unfolding write_atomic
  update fn faults (err e) disk = (err e, disk)
  update fn faults (ok current) disk = elim (fn current) [
    | err e ↦ (err e, disk)
    | ok updated ↦ write_atomic faults updated disk
  ]

  -- `WithLock`
  unfoldable pub with_lock :
      T → (T → Result StoreError T) → Faults → Disk → Result StoreError (Unit {0}) × Disk
  unfolding load update
  with_lock empty fn faults disk =
      if faults.ensure_dir
      then (err dir_failed, disk)
      else if faults.lock
      then (err lock_failed, disk)
      else update fn faults (load empty faults disk) disk
