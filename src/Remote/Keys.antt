-- ===== src/Remote/Keys.antt =====
-- State keys can be taken apart again, and tell repositories and branches apart.
use mathlib.Core.List.{append_assoc}
use wtp.Base.{◌≡◌, refl, sym, ap, ◌∙◌, false, some, [], ◌∷◌, ◌++◌, arith}
use wtp.Base.Text.{Str, ◌==◌, cut, contains, cut_prefix, has_byte}
use wtp.Base.Text.Laws.{has_byte-append_cons, split_last}
use wtp.Remote.{RepoIdentifier, storage_path, state_key, parse_state_key, separator, slash}

-- The path has no `::` inside, and none that begins at its last byte.
abbrev pub IsSplittable : Str → Type 0
IsSplittable path = contains separator (path ++ b':' ∷ []) ≡ false

cut-separator-append :
    (path branch : Str)
    → IsSplittable path
    → cut separator (path ++ separator ++ branch) ≡ some (path, branch)
unfolding cut contains cut_prefix
cut-separator-append [] branch h = refl
cut-separator-append (a ∷ []) branch h = ground arith
cut-separator-append (a ∷ b ∷ path) branch h =
    ground (arith, cut-separator-append (b ∷ path) branch)

-- A key that is built from an identifier whose storage path is splittable is taken apart into that
-- path and the branch, whatever bytes the branch holds.
pub parse_state_key-state_key :
    (r : RepoIdentifier) (branch : Str)
    → IsSplittable (storage_path r)
    → parse_state_key (state_key r branch) ≡ (storage_path r, branch)
unfolding parse_state_key state_key
parse_state_key-state_key r branch h = rw (cut-separator-append (storage_path r) branch h)

-- Owner and repository are single path segments.
pub record HasSegments (r : RepoIdentifier) : Type 0 where
  pub owner_segment : has_byte slash r.owner ≡ false
  pub repo_segment : has_byte slash r.repo ≡ false

not_segment : (x y z : Str) → has_byte slash x ≡ false → x ≡ y ++ slash ∷ z → ⊥
not_segment x y z h e = cc (h, ap (has_byte slash) e, has_byte-append_cons slash y z)

join3 : (a b c : Str) → a ++ slash ∷ (b ++ slash ∷ c) ≡ (a ++ slash ∷ b) ++ slash ∷ c
join3 a b c = simp append_assoc

-- What stands before the last slash of a storage path.
scope : Str → Str → Str
scope [] owner = owner
scope (c ∷ host) owner = (c ∷ host) ++ slash ∷ owner

storage_path-scope :
    (host owner repo : Str)
    → storage_path (record { host = host; owner = owner; repo = repo })
      ≡ scope host owner ++ slash ∷ repo
unfolding storage_path scope ◌==◌
storage_path-scope [] owner repo = refl
storage_path-scope (c ∷ host) owner repo = join3 (c ∷ host) owner repo

scope-injective :
    (h h' o o' : Str)
    → has_byte slash o ≡ false
    → has_byte slash o' ≡ false
    → scope h o ≡ scope h' o'
    → (h ≡ h') × (o ≡ o')
unfolding scope
scope-injective [] [] o o' n n' e = (refl, e)
scope-injective [] (c ∷ h') o o' n n' e = absurd (not_segment o (c ∷ h') o' n e)
scope-injective (c ∷ h) [] o o' n n' e = absurd (not_segment o' (c ∷ h) o n' (sym e))
scope-injective (c ∷ h) (c' ∷ h') o o' n n' e = split_last slash (c ∷ h) o (c' ∷ h') o' n n' e

-- Two repositories with the same storage path are the same repository.
pub storage_path-injective :
    (r s : RepoIdentifier) → HasSegments r → HasSegments s → storage_path r ≡ storage_path s → r ≡ s
storage_path-injective r s hr hs e =
    let scoped =
      sym (storage_path-scope r.host r.owner r.repo)
      ∙ e
      ∙ storage_path-scope s.host s.owner s.repo in
    let (scopes, repos) =
      split_last slash (scope r.host r.owner) r.repo (scope s.host s.owner) s.repo hr.repo_segment
        hs.repo_segment scoped in
    let (hosts, owners) =
      scope-injective r.host s.host r.owner s.owner hr.owner_segment hs.owner_segment scopes in
    λ i. record { host = hosts i; owner = owners i; repo = repos i }

-- Two state keys are equal only if they are for the same branch of the same repository, if the owners
-- and the names of both repositories have no slash, and their storage paths have no `::` in them and
-- do not end in a colon.
pub state_key-injective :
    (r s : RepoIdentifier) (a b : Str)
    → HasSegments r
    → HasSegments s
    → IsSplittable (storage_path r)
    → IsSplittable (storage_path s)
    → state_key r a ≡ state_key s b
    → (r ≡ s) × (a ≡ b)
state_key-injective r s a b hr hs pr ps e =
    let parts =
      sym (parse_state_key-state_key r a pr)
      ∙ ap parse_state_key e
      ∙ parse_state_key-state_key s b ps in
    (
      storage_path-injective r s hr hs (ap (λ (p : Str × Str). p.0) parts),
      ap (λ (p : Str × Str). p.1) parts,
    )
