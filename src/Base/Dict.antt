-- ===== src/Base/Dict.antt =====
-- Go maps from strings, as association lists. Iteration order is the order of the list, which the
-- theorems do not rely on.
use mathlib.Core.Path.{◌≡◌, refl}
use mathlib.Core.Bool.{Bool, false, ◌||◌}
use mathlib.Core.Option.{Option, none, some}
use mathlib.Core.List.{List, [], ◌∷◌}
use native.Mathlib.Omega.{arith}
use wtp.Base.Tests.{if◌then◌else◌}
use wtp.Base.Text.{Str, ◌==◌}
use wtp.Base.Text.Laws.{eq_iff}

abbrev pub Dict {ℓ} : Type ℓ → Type ℓ
Dict V = List (Str × V)

module _ {ℓ} {V : Type ℓ} where
  -- `v, ok := m[k]`
  unfoldable pub lookup : Str → Dict V → Option V
  lookup k [] = none
  lookup k ((j, v) ∷ m) = if j == k then some v else lookup k m

  -- `delete(m, k)`
  unfoldable pub erase : Str → Dict V → Dict V
  erase k [] = []
  erase k ((j, w) ∷ m) = let rest = erase k m in if j == k then rest else (j, w) ∷ rest

  pub lookup-erase :
      (k j : Str) (m : Dict V) → lookup j (erase k m) ≡ (if k == j then none else lookup j m)
  unfolding lookup erase
  lookup-erase k j [] = ground arith
  lookup-erase k j ((i, w) ∷ m) =
      ground (arith, eq_iff k j, eq_iff i k, eq_iff i j, lookup-erase k j m)

  -- `m[k] = v`
  unfoldable pub insert : Str → V → Dict V → Dict V
  insert k v [] = (k, v) ∷ []
  insert k v ((key, old) ∷ m) =
      let rest = insert k v m in if key == k then (key, v) ∷ m else (key, old) ∷ rest

  pub lookup-insert :
      (k j : Str) (v : V) (m : Dict V)
      → lookup j (insert k v m) ≡ (if k == j then some v else lookup j m)
  unfolding insert lookup
  lookup-insert k j v [] = refl
  lookup-insert k j v ((key, old) ∷ rest) =
      ground (arith, lookup-insert k j v rest, eq_iff key k, eq_iff k j, eq_iff key j)

-- A Go map holds a key at most once.
abbrev pub NodupKeys {ℓ} : {V : Type ℓ} → Dict V → Type ℓ
NodupKeys [] = Unit
NodupKeys ((k, _) ∷ m) = (lookup k m ≡ none) × NodupKeys m

-- Go maps from strings to bool whose values are all true, as lists of their keys.
abbrev pub in_set : Str → List Str → Bool
in_set k [] = false
in_set k (j ∷ keys) = j == k || in_set k keys
