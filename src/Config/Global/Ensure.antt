-- ===== src/Config/Global/Ensure.antt =====
-- The configuration that is saved is the one that is loaded.
use wtp.Base.{ℕ, ◌≡◌, refl, false, Option, none, some}
use wtp.Base.Result.{ok}
use wtp.Base.Text.{Str}
use wtp.Config.Global.{
  GlobalConfig, defaults, DurationTexts, RawConfig, GlobalCodec, GlobalDisk, GlobalFaults, written,
  read_duration, parse_duration_node, unmarshal_yaml, unmarshalled, load_global_config, renamed,
  replaced, save_global_config, created, ensure_global_config,
}

abbrev pub no_faults : GlobalFaults
no_faults = record {
  read = false;
  ensure_dir = false;
  write = none;
  rename = false;
  remove = false;
}

-- The nodes that hold three texts, whatever else these may be read as.
abbrev pub nodes : DurationTexts → (ℕ → Option ℕ) → RawConfig
nodes w seconds = record {
  cache_ttl = some (record { value = w.cache_ttl; seconds = seconds 0 });
  archive_retention = some (record { value = w.archive_retention; seconds = seconds 1 });
  maintenance_interval = some (record { value = w.maintenance_interval; seconds = seconds 2 });
}

-- The texts of the durations are read back as these.
pub record IsReadBack (codec : GlobalCodec) (c : GlobalConfig) : Type 0 where
  pub ttl : codec.parse_duration (codec.duration_string c.cache_ttl) ≡ some c.cache_ttl
  pub retention :
      codec.parse_duration (codec.duration_string c.archive_retention) ≡ some c.archive_retention
  pub interval :
      codec.parse_duration (codec.duration_string c.maintenance_interval)
      ≡ some c.maintenance_interval

module _ (codec : GlobalCodec) (seconds : ℕ → Option ℕ) (text : Str) where
  unmarshal_yaml-written :
      (c : GlobalConfig)
      → IsReadBack codec c
      → unmarshal_yaml codec (nodes (written codec c) seconds) ≡ ok c
  unfolding unmarshal_yaml parse_duration_node read_duration
  unmarshal_yaml-written c h = rw (h.ttl, h.retention, h.interval) refl

  abbrev pub saved_disk : GlobalDisk
  saved_disk = record { file = some text; temp = none }

  save_global_config-written :
      (c : GlobalConfig) (disk : GlobalDisk)
      → codec.write (written codec c) ≡ some text
      → save_global_config codec no_faults c disk ≡ (ok tt, saved_disk)
  unfolding save_global_config replaced renamed
  save_global_config-written c disk w = rw w refl

  load_global_config-written :
      (c : GlobalConfig)
      → codec.read text ≡ some (some (nodes (written codec c) seconds))
      → IsReadBack codec c
      → load_global_config codec no_faults saved_disk ≡ ok c
  unfolding load_global_config unmarshalled
  load_global_config-written c r h = rw r (unmarshal_yaml-written c h)

  ensure_global_config-missing :
      (temp : Option Str)
      → codec.write (written codec defaults) ≡ some text
      → ensure_global_config codec no_faults (record { file = none; temp = temp })
        ≡ (ok defaults, saved_disk)
  unfolding ensure_global_config created
  ensure_global_config-missing temp w =
      rw (save_global_config-written defaults (record { file = none; temp = temp }) w) refl

  ensure_global_config-present :
      (c : GlobalConfig)
      → codec.read text ≡ some (some (nodes (written codec c) seconds))
      → IsReadBack codec c
      → ensure_global_config codec no_faults saved_disk ≡ (ok c, saved_disk)
  unfolding ensure_global_config
  ensure_global_config-present c r h = rw (load_global_config-written c r h) refl

-- Without faults, where the configuration is not there, it is created with the defaults; a
-- configuration that is saved over it is what is ensured from then on, and nothing is written again.
-- YAML is relied on to read back the texts that it wrote, and the durations in the configuration to be
-- read back from their texts.
pub ensure_global_config-save_global_config :
    (codec : GlobalCodec) (seconds : ℕ → Option ℕ) (first text : Str) (temp : Option Str)
    (c : GlobalConfig)
    → codec.write (written codec defaults) ≡ some first
    → codec.write (written codec c) ≡ some text
    → codec.read text ≡ some (some (nodes (written codec c) seconds))
    → IsReadBack codec c
    → let fresh = ensure_global_config codec no_faults (record { file = none; temp = temp }) in
      let saved = save_global_config codec no_faults c fresh.1 in
      (fresh.0 ≡ ok defaults)
      × (saved.0 ≡ ok tt)
      × (ensure_global_config codec no_faults saved.1 ≡ (ok c, saved.1))
ensure_global_config-save_global_config codec seconds first text temp c w w' r h =
    rw
      (
        ensure_global_config-missing codec seconds first temp w,
        save_global_config-written codec seconds text c (saved_disk codec seconds first) w',
      )
      (refl, refl, ensure_global_config-present codec seconds text c r h)
