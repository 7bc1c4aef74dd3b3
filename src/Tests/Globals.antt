-- ===== src/Tests/Globals.antt =====
-- The global configuration at a concrete input.
use wtp.Base.{ℕ, ◌≡◌, refl, Option, none, some, [], ◌∷◌, ◌++◌}
use wtp.Base.Result.{ok}
use wtp.Base.Text.{Str}
use wtp.Config.Global.{
  GlobalConfig, defaults, RawConfig, GlobalCodec, GlobalDisk, save_global_config,
  ensure_global_config,
}
use wtp.Config.Global.Ensure.{no_faults, nodes, ensure_global_config-save_global_config}

abbrev no_seconds : ℕ → Option ℕ
no_seconds n = none

abbrev read_three : Str → Option (Option RawConfig)
read_three (a ∷ b ∷ c ∷ []) = some (
    some (
      nodes
        (record { cache_ttl = a ∷ []; archive_retention = b ∷ []; maintenance_interval = c ∷ [] })
        no_seconds))
read_three text = none

abbrev read_one : Str → Option ℕ
read_one (d ∷ []) = some d
read_one text = none

-- A duration as one symbol, and a configuration as three.
abbrev codec : GlobalCodec
codec = record {
  write = λ w. some (w.cache_ttl ++ (w.archive_retention ++ w.maintenance_interval));
  read = read_three;
  duration_string = λ d. d ∷ [];
  parse_duration = read_one;
}

abbrev custom : GlobalConfig
custom = record { cache_ttl = 5; archive_retention = 6; maintenance_interval = 7 }

abbrev fresh_disk : GlobalDisk
fresh_disk = (ensure_global_config codec no_faults (record { file = none; temp = none })).1

abbrev saved_again : GlobalDisk
saved_again = (save_global_config codec no_faults custom fresh_disk).1

ensure_global_config-save_global_config_example :
    ((ensure_global_config codec no_faults (record { file = none; temp = none })).0 ≡ ok defaults)
    × ((save_global_config codec no_faults custom fresh_disk).0 ≡ ok tt)
    × (ensure_global_config codec no_faults saved_again ≡ (ok custom, saved_again))
ensure_global_config-save_global_config_example =
    ensure_global_config-save_global_config codec no_seconds
      (60000000000 ∷ 864000000000000 ∷ 3600000000000 ∷ []) (5 ∷ 6 ∷ 7 ∷ []) none custom refl refl
      refl (record { ttl = refl; retention = refl; interval = refl })
