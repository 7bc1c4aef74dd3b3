-- ===== src/Config/Valid.antt =====
-- What a configuration that is loaded can be relied on for.
use wtp.Base.{◌≡◌, ◌⊎◌, refl, ap, ◌∙◌, true, false, Option, none, some, List, [], ◌∷◌}
use wtp.Base.{◌&&◌, arith, inl, inr, Bool-cases, Option-cases}
use wtp.Base.Result.{ok, Result-cases, ok-injective}
use wtp.Base.Text.{Str, ◌==◌}
use wtp.Base.Lists.{All}
use wtp.FilePath.{is_abs}
use wtp.Store.{Codec, IsFaithful}
use wtp.Config.{Hook, hook_type_copy, hook_type_command, hook_type_symlink}
use wtp.Config.{validate_hook, validate_copy, validate_command, validate_symlink, validate}
use wtp.Config.{apply_hook_defaults, apply_defaults, ConfigFile, contents, missing, unreadable}
use wtp.Config.{validated, parsed, marshaled, load_config, save_config}

-- A hook that copies or links from somewhere to somewhere, and runs no command.
abbrev pub MovesFiles : Hook → Type 0
MovesFiles h = ((h.from == []) ≡ false) × ((h.to == []) ≡ false) × ((h.command == []) ≡ true)

-- A hook that runs a command.
abbrev pub RunsCommand : Hook → Type 0
RunsCommand h = ((h.command == []) ≡ false) × ((h.from == []) ≡ true) × ((h.to == []) ≡ true)

-- A hook that has exactly those of a source, a destination and a command that its type needs. The
-- environment and the directory of a command are not looked at.
abbrev pub IsRunnable : Hook → Type 0
IsRunnable h =
    (((h.hook_type == hook_type_copy) ≡ true) × MovesFiles h)
    ⊎ ((((h.hook_type == hook_type_symlink) ≡ true) × MovesFiles h)
        ⊎ (((h.hook_type == hook_type_command) ≡ true) × RunsCommand h))

-- Defaults are applied once and for all.
apply_hook_defaults-idempotent :
    (h : Hook) → apply_hook_defaults (apply_hook_defaults h) ≡ apply_hook_defaults h
unfolding apply_hook_defaults
apply_hook_defaults-idempotent h = ground arith

apply_defaults-idempotent :
    (hooks : List Hook) → apply_defaults (apply_defaults hooks) ≡ apply_defaults hooks
unfolding apply_defaults
apply_defaults-idempotent [] = refl
apply_defaults-idempotent (h ∷ hooks) =
    cc (apply_hook_defaults-idempotent h, apply_defaults-idempotent hooks)

-- What validation itself says of a copy hook: one without a destination has a relative source.
abbrev IsCopy : Hook → Type 0
IsCopy h =
    ((h.hook_type == hook_type_copy) ≡ true)
    × ((h.from == []) ≡ false)
    × (((h.to == []) && is_abs h.from) ≡ false)
    × ((h.command == []) ≡ true)

validate_hook-cases :
    (h : Hook)
    → validate_hook h ≡ ok tt
    → IsCopy h
      ⊎ ((((h.hook_type == hook_type_symlink) ≡ true) × MovesFiles h)
          ⊎ (((h.hook_type == hook_type_command) ≡ true) × RunsCommand h))
unfolding validate_hook validate_copy validate_command validate_symlink
validate_hook-cases h v = elim (Bool-cases (h.hook_type == hook_type_copy)) [
  | inl c ↦ inl (c, ground (arith, c), ground (arith, c), ground (arith, c))
  | inr c ↦ elim (Bool-cases (h.hook_type == hook_type_command)) [
    | inl r ↦ inr (inr (r, (ground (arith, c, r), ground (arith, c, r), ground (arith, c, r))))
    | inr r ↦ elim (Bool-cases (h.hook_type == hook_type_symlink)) [
      | inl l ↦
          inr (inl (l, (ground (arith, c, r, l), ground (arith, c, r, l), ground (arith, c, r, l))))
      | inr l ↦ ground (arith, c, r, l)
    ]
  ]
]

-- After the defaults, a copy hook with a relative source has a destination.
to-apply_hook_defaults :
    (h : Hook) → IsCopy (apply_hook_defaults h) → ((apply_hook_defaults h).to == []) ≡ false
unfolding apply_hook_defaults
to-apply_hook_defaults h (c, f, t, n) = ground arith

validate_hook-IsRunnable :
    (h : Hook) → validate_hook (apply_hook_defaults h) ≡ ok tt → IsRunnable (apply_hook_defaults h)
validate_hook-IsRunnable h v = elim (validate_hook-cases (apply_hook_defaults h) v) [
  | inl copy ↦ let (c, f, t, n) = copy in inl (c, (f, to-apply_hook_defaults h copy, n))
  | inr other ↦ inr other
]

validate-IsRunnable :
    (hooks : List Hook)
    → validate (apply_defaults hooks) ≡ ok tt
    → All IsRunnable (apply_defaults hooks)
unfolding validate apply_defaults
validate-IsRunnable [] v = tt
validate-IsRunnable (h ∷ hooks) v = elim (Result-cases (validate_hook (apply_hook_defaults h))) [
  | inl (_, e) ↦ (validate_hook-IsRunnable h e, validate-IsRunnable hooks (rw e at v))
  | inr (_, e) ↦ cc (rw e at v)
]

module _ (yaml : Codec (List Hook)) where
  parsed-IsRunnable :
      (o : Option (List Hook)) (hooks : List Hook)
      → parsed yaml o ≡ ok hooks
      → All IsRunnable hooks × (apply_defaults hooks ≡ hooks)
  unfolding parsed validated
  parsed-IsRunnable none hooks h = cc
  parsed-IsRunnable (some read) hooks h = elim (Result-cases (validate (apply_defaults read))) [
    | inl (_, e) ↦
        let same : apply_defaults read ≡ hooks = ok-injective (rw e at h) in
        rw (← same) (validate-IsRunnable read e, apply_defaults-idempotent read)
    | inr (_, e) ↦ cc (rw e at h)
  ]

  -- Every hook of a configuration that is loaded is a copy or a link with a source and a destination
  -- and without a command, or a command hook with a command and without a source and a destination,
  -- so none has an unknown type. And its defaults are in place.
  pub load_config-IsRunnable :
      (file : ConfigFile) (hooks : List Hook)
      → load_config yaml file ≡ ok hooks
      → All IsRunnable hooks × (apply_defaults hooks ≡ hooks)
  unfolding load_config apply_defaults
  load_config-IsRunnable missing hooks h = rw (← ok-injective h) (tt, refl)
  load_config-IsRunnable unreadable hooks h = cc
  load_config-IsRunnable (contents bytes) hooks h = parsed-IsRunnable (yaml.decode bytes) hooks h

  -- A configuration that is saved is loaded as the same hooks with their defaults, if YAML reads back
  -- what it wrote.
  load_config-save_config :
      (faithful : IsFaithful yaml) (hooks : List Hook) (bytes : Str)
      → save_config yaml hooks ≡ ok bytes
      → load_config yaml (contents bytes) ≡ ok (apply_defaults hooks)
  unfolding save_config load_config parsed validated marshaled
  load_config-save_config faithful hooks bytes h =
      elim (Result-cases (validate (apply_defaults hooks))) [
        | inl (_, v) ↦ elim (Option-cases (yaml.encode (apply_defaults hooks))) [
          | inl e ↦ cc (rw (v, e) at h)
          | inr (written, e) ↦
              let same : written ≡ bytes = ok-injective (rw (v, e) at h) in
              let read = faithful (apply_defaults hooks) bytes (e ∙ ap some same) in
              rw (read, apply_defaults-idempotent hooks, v)
        ]
        | inr (_, v) ↦ cc (rw v at h)
      ]
