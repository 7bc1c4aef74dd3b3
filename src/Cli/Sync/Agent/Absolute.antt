-- ===== src/Cli/Sync/Agent/Absolute.antt =====
-- The program of the scheduled agent has an absolute path.
use wtp.Base.{
  ◌≡◌, refl, sym, Bool, true, false, not, ◌||◌, ◌⊎◌, inl, inr, if◌then◌else◌, Bool-cases, Option,
  none, some, List, [], ◌∷◌, ◌++◌, arith,
}
use wtp.Base.Result.{ok, ok-injective}
use wtp.Base.Text.{Str, ◌==◌, has_byte}
use wtp.FilePath.{slash, is_abs, join, abs, base, clean}
use wtp.Cli.Sync.Agent.{
  AgentError, split_list, look_path_in, found_or, resolve_executable, preferred, agent_program,
}

clean-is_abs : (path : Str) → is_abs path ≡ true → is_abs (clean path) ≡ true
unfolding is_abs clean ◌==◌
clean-is_abs [] h = cc
clean-is_abs (c ∷ path) h = rw h refl

join-is_abs : (dir name : Str) → is_abs dir ≡ true → is_abs (join dir name) ≡ true
unfolding is_abs join ◌==◌
join-is_abs [] name h = cc
join-is_abs (c ∷ dir) name h = clean-is_abs (c ∷ (dir ++ slash ∷ name)) h

-- An absolute path, if there is one.
abbrev AbsoluteIn : Option Str → Type 0
AbsoluteIn none = Unit {0}
AbsoluteIn (some path) = is_abs path ≡ true

look_path_in-AbsoluteIn :
    (usable : Str → Bool) (name : Str) (dirs : List Str)
    → AbsoluteIn (look_path_in usable name dirs)
unfolding look_path_in
look_path_in-AbsoluteIn usable name [] = tt
look_path_in-AbsoluteIn usable name (dir ∷ dirs) =
    let rest = look_path_in-AbsoluteIn usable name dirs in
    elim (Bool-cases (dir == [] || not (is_abs dir))) [
      | inl e ↦ rw e rest
      | inr e ↦ elim (Bool-cases (usable (join dir name))) [
        | inl u ↦ rw (e, u) (join-is_abs dir name (ground (arith, e)))
        | inr u ↦ rw (e, u) rest
      ]
    ]

if-AbsoluteIn :
    (b : Bool) (x y : Option Str)
    → (b ≡ true → AbsoluteIn x)
    → AbsoluteIn y
    → AbsoluteIn (if b then x else y)
if-AbsoluteIn true x y f g = f refl
if-AbsoluteIn false x y f g = g

abs-AbsoluteIn : (dir path : Str) → is_abs dir ≡ true → AbsoluteIn (abs (some dir) path)
unfolding abs
abs-AbsoluteIn dir path h =
    if-AbsoluteIn (is_abs path) _ _ (clean-is_abs path) (join-is_abs dir path h)

found_or-is_abs :
    (e : AgentError) (o : Option Str) (found : Str)
    → AbsoluteIn o
    → found_or e o ≡ ok found
    → is_abs found ≡ true
unfolding found_or
found_or-is_abs e none found h r = cc
found_or-is_abs e (some path) found h r = rw (sym (ok-injective r)) h

resolve_executable-is_abs :
    (usable : Str → Bool) (dir name path_env found : Str)
    → is_abs dir ≡ true
    → resolve_executable usable (some dir) name path_env ≡ ok found
    → is_abs found ≡ true
unfolding resolve_executable
resolve_executable-is_abs usable dir name path_env found h r =
    elim (Bool-cases (has_byte slash name)) [
      | inl e ↦ found_or-is_abs _ _ found (abs-AbsoluteIn dir name h) (rw e at r)
      | inr e ↦
          found_or-is_abs _ _ found (look_path_in-AbsoluteIn usable name (split_list path_env))
            (rw e at r)
    ]

IsAgentOf : (Str → Str → Bool) → Str → Str → Type 0
IsAgentOf same_file found exe = (is_abs exe ≡ true) × ((exe ≡ found) ⊎ (same_file exe found ≡ true))

preferred-IsAgentOf :
    (same_file : Str → Str → Bool) (found : Str) (o : Option Str)
    → is_abs found ≡ true
    → AbsoluteIn o
    → IsAgentOf same_file found (preferred same_file found o)
unfolding preferred IsAgentOf
preferred-IsAgentOf same_file found none h k = (h, inl refl)
preferred-IsAgentOf same_file found (some on_path) h k =
    elim (Bool-cases (same_file on_path found)) [
      | inl e ↦ rw e (k, inr e)
      | inr e ↦ rw e (h, inl refl)
    ]

-- From an absolute working directory, and if the program's own name is given and resolved, the agent
-- runs one executable with the program's own arguments behind it. Its path is absolute, and it is
-- the resolved file or one that is the same file.
pub agent_program-is_abs :
    (usable : Str → Bool) (same_file : Str → Str → Bool) (dir self path_env found : Str)
    (args : List Str)
    → is_abs dir ≡ true
    → self == [] ≡ false
    → resolve_executable usable (some dir) self path_env ≡ ok found
    → (exe : Str) × (agent_program usable same_file (some dir) (self ∷ args) path_env
        ≡ ok (exe ∷ args))
      × (is_abs exe ≡ true)
      × ((exe ≡ found) ⊎ (same_file exe found ≡ true))
unfolding agent_program IsAgentOf
agent_program-is_abs usable same_file dir self path_env found args h given r =
    let o = look_path_in usable (base found) (split_list path_env) in
    let (a, b) =
      preferred-IsAgentOf same_file found o
        (resolve_executable-is_abs usable dir self path_env found h r)
        (look_path_in-AbsoluteIn usable (base found) (split_list path_env)) in
    (preferred same_file found o, rw (given, r) refl, a, b)
