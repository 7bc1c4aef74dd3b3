-- ===== src/Config/Global.antt =====
-- internal/config/global.go: the configuration that all repositories share. A duration is the 64-bit
-- word of its nanoseconds, in two's complement. YAML and the text of a duration are a codec.
pub mod Ensure
use wtp.Base.{ℕ, ◌*◌, ◌%◌, Bool, Option, none, some, if◌then◌else◌}
use wtp.Base.Result.{Result, ok, err, ◌>>=◌}
use wtp.Base.Text.{Str}

abbrev pub second : ℕ
second = 1000000000

abbrev pub default_cache_ttl : ℕ
default_cache_ttl = 60 * second

abbrev pub default_archive_retention : ℕ
default_archive_retention = 240 * (3600 * second)

abbrev pub default_maintenance_interval : ℕ
default_maintenance_interval = 3600 * second

pub record GlobalConfig : Type 0 where
  pub cache_ttl : ℕ
  pub archive_retention : ℕ
  pub maintenance_interval : ℕ

abbrev pub defaults : GlobalConfig
defaults = record {
  cache_ttl = default_cache_ttl;
  archive_retention = default_archive_retention;
  maintenance_interval = default_maintenance_interval;
}

-- The value that a variable has which nothing was decoded into.
abbrev pub zero_config : GlobalConfig
zero_config = record { cache_ttl = 0; archive_retention = 0; maintenance_interval = 0 }

-- The durations as `MarshalYAML` gives them.
pub record DurationTexts : Type 0 where
  pub cache_ttl : Str
  pub archive_retention : Str
  pub maintenance_interval : Str

-- A node, with the `int64` that it decodes to, if it does.
pub record Node : Type 0 where
  pub value : Str
  pub seconds : Option ℕ

pub record RawConfig : Type 0 where
  pub cache_ttl : Option Node
  pub archive_retention : Option Node
  pub maintenance_interval : Option Node

pub data GlobalError : Type 0 where
  not_read not_parsed not_ensured not_marshalled not_written not_finalized not_created : GlobalError
  no_duration : Str → GlobalError

-- `read` has three ends: an error, no document, and the nodes of a document.
pub record GlobalCodec : Type 0 where
  pub write : DurationTexts → Option Str
  pub read : Str → Option (Option RawConfig)
  pub duration_string : ℕ → Str
  pub parse_duration : Str → Option ℕ

-- The file, and the temporary one beside it.
pub record GlobalDisk : Type 0 where
  pub file : Option Str
  pub temp : Option Str

-- The steps that fail. `write` tells what a write that fails has left.
pub record GlobalFaults : Type 0 where
  pub read : Bool
  pub ensure_dir : Bool
  pub write : Option (Option Str)
  pub rename : Bool
  pub remove : Bool

-- How many words of 64 bits there are.
abbrev modulus : ℕ
modulus = 18446744073709551616

read_duration : Option ℕ → Node → Result GlobalError ℕ
read_duration (some d) node = ok d
read_duration none node = elim node.seconds [
  | some secs ↦ ok ((secs * second) % modulus)
  | none ↦ err (no_duration node.value)
]

module _ (codec : GlobalCodec) where
  -- `MarshalYAML`
  abbrev pub written : GlobalConfig → DurationTexts
  written c = record {
    cache_ttl = codec.duration_string c.cache_ttl;
    archive_retention = codec.duration_string c.archive_retention;
    maintenance_interval = codec.duration_string c.maintenance_interval;
  }

  unfoldable pub parse_duration_node : Option Node → ℕ → Result GlobalError ℕ
  unfolding read_duration
  parse_duration_node none default = ok default
  parse_duration_node (some node) default = read_duration (codec.parse_duration node.value) node

  -- `UnmarshalYAML`
  unfoldable pub unmarshal_yaml : RawConfig → Result GlobalError GlobalConfig
  unfolding parse_duration_node
  unmarshal_yaml raw = parse_duration_node raw.cache_ttl default_cache_ttl >>= λ ttl.
      (parse_duration_node raw.archive_retention default_archive_retention >>= λ retention.
      (parse_duration_node raw.maintenance_interval default_maintenance_interval >>= λ interval.
      ok (record {
        cache_ttl = ttl;
        archive_retention = retention;
        maintenance_interval = interval;
      })))

  unmarshalled : Option (Option RawConfig) → Result GlobalError GlobalConfig
  unfolding unmarshal_yaml
  unmarshalled none = err not_parsed
  unmarshalled (some none) = ok zero_config
  unmarshalled (some (some raw)) = unmarshal_yaml raw

  unfoldable pub load_global_config : GlobalFaults → GlobalDisk → Result GlobalError GlobalConfig
  unfolding unmarshalled
  load_global_config faults disk = elim disk.file [
    | none ↦ ok defaults
    | some text ↦ if faults.read then err not_read else unmarshalled (codec.read text)
  ]

  abbrev Saved : Type 0
  Saved = Result GlobalError (Unit {0}) × GlobalDisk

  -- The text in the temporary file takes the place of the file. If it cannot, it is removed, if it can.
  renamed : GlobalFaults → Str → GlobalDisk → Saved
  renamed faults text disk =
      if faults.rename
      then (err not_finalized, record disk { temp = if faults.remove then some text else none })
      else (ok tt, record { file = some text; temp = none })

  replaced : GlobalFaults → Option Str → GlobalDisk → Saved
  unfolding renamed
  replaced faults none disk = (err not_marshalled, disk)
  replaced faults (some text) disk = elim faults.write [
    | some left ↦ (err not_written, record disk { temp = left })
    | none ↦ renamed faults text disk
  ]

  unfoldable pub save_global_config : GlobalFaults → GlobalConfig → GlobalDisk → Saved
  unfolding replaced
  save_global_config faults c disk =
      if faults.ensure_dir
      then (err not_ensured, disk)
      else replaced faults (codec.write (written c)) disk

  abbrev Ensured : Type 0
  Ensured = Result GlobalError GlobalConfig × GlobalDisk

  created : Saved → Ensured
  created (err e, disk) = (err not_created, disk)
  created (ok _, disk) = (ok defaults, disk)

  -- `EnsureGlobalConfig`, where only a file that is not there is created.
  unfoldable pub ensure_global_config : GlobalFaults → GlobalDisk → Ensured
  unfolding created save_global_config load_global_config
  ensure_global_config faults disk = elim disk.file [
    | none ↦ created (save_global_config faults defaults disk)
    | some text ↦ (load_global_config faults disk, disk)
  ]
