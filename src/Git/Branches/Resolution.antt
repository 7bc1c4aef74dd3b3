-- ===== src/Git/Branches/Resolution.antt =====
-- `ResolveBranch` on a git that answers as its manual says: local branches before remote ones, and
-- a remote one only if no other remote has the branch too.
use mathlib.Core.List.{append-nil, append_assoc}
use wtp.Base.{◌≡◌, refl, sym, ap, ◌∙◌, Bool, true, false, some, none, List, [], ◌∷◌, ◌++◌, map}
use wtp.Base.{arith, if◌then◌else◌}
use wtp.Base.Result.{Result, ok, err}
use wtp.Base.Text.{Str, ◌==◌, has_byte, split_byte, split_n, trim_space, trim_left}
use wtp.Base.Text.Laws.{split_byte_self, split_byte-append, cut_byte-append, eq_nil-append_cons}
use wtp.Base.Text.Trim.{
  all_dark, IsWord, all_dark-append, all_dark_newline, starts_dark_front, ends_dark,
  trim_space_dark, trim_space_line,
}
use wtp.Base.Dict.{Dict, lookup, insert, lookup-insert}
use wtp.Base.Lists.{All}
use wtp.Git.{newline}
use wtp.Git.Branches.{
  Git, succeeded, exited, BranchError, branch_not_found, multiple_branches_found, slash, is_unsafe,
  show_ref, for_each_ref, read_refs, read_ref, keys, resolved_by, resolve_branch, branch_exists,
  get_remote_branches, remote_branches_of, existence_of, remote_of,
}

-- "refname:short" of a remote branch.
abbrev pub remote_ref : Str → Str → Str
remote_ref branch remote = remote ++ slash ∷ branch

-- What `git for-each-ref` prints: a line for each remote that has the branch.
pub printed_refs : Str → List Str → Str
printed_refs branch [] = []
printed_refs branch (remote ∷ remotes) =
    remote_ref branch remote ++ newline ∷ printed_refs branch remotes

-- The same without the last line break.
front_refs : Str → Str → List Str → Str
front_refs branch remote [] = remote_ref branch remote
front_refs branch remote (next ∷ remotes) =
    remote_ref branch remote ++ newline ∷ front_refs branch next remotes

printed_refs-split :
    (branch remote : Str) (remotes : List Str)
    → printed_refs branch (remote ∷ remotes) ≡ front_refs branch remote remotes ++ newline ∷ []
unfolding printed_refs front_refs
printed_refs-split branch remote [] = refl
printed_refs-split branch remote (next ∷ remotes) =
    ap (λ (t : Str). remote_ref branch remote ++ newline ∷ t)
      (printed_refs-split branch next remotes)
    ∙ sym (append_assoc (remote_ref branch remote) _ _)

-- The name of a remote that git allows.
pub record IsRemoteName (remote : Str) : Type 0 where
  pub word : IsWord remote
  pub no_slash : has_byte slash remote ≡ false

-- No remote is listed twice.
abbrev pub AreDistinct : List Str → Type 0
AreDistinct [] = Unit {0}
AreDistinct (remote ∷ remotes) =
    All (λ (other : Str). (remote == other) ≡ false) remotes × AreDistinct remotes

-- The remote branches that `GetRemoteBranches` gives for what git prints.
abbrev found : Str → List Str → Dict Str
found branch remotes = read_refs (split_byte newline (trim_space (printed_refs branch remotes))) []

no_entries :
    (remotes : List Str) → All (λ (remote : Str). lookup {V = Str} remote [] ≡ none) remotes
unfolding lookup
no_entries [] = tt
no_entries (remote ∷ remotes) = (refl, no_entries remotes)

module _ (branch : Str) (branch_word : IsWord branch) where
  front_refs-last :
      (remote : Str) (remotes : List Str)
      → (s : Str) × (front_refs branch remote remotes ≡ s ++ branch)
  unfolding front_refs
  front_refs-last remote [] = (remote ++ slash ∷ [], sym (append_assoc remote (slash ∷ []) branch))
  front_refs-last remote (next ∷ remotes) =
      let (s, e) = front_refs-last next remotes in
      (
        remote_ref branch remote ++ newline ∷ s,
        ap (λ (t : Str). remote_ref branch remote ++ newline ∷ t) e
            ∙ sym (append_assoc (remote_ref branch remote) (newline ∷ s) branch),
      )

  front_refs-first :
      (remote : Str) (remotes : List Str)
      → (s : Str) × (front_refs branch remote remotes ≡ remote ++ slash ∷ s)
  unfolding front_refs
  front_refs-first remote [] = (branch, refl)
  front_refs-first remote (next ∷ remotes) = (
    branch ++ newline ∷ front_refs branch next remotes,
    append_assoc remote (slash ∷ branch) (newline ∷ front_refs branch next remotes),
  )

  remote_ref_dark :
      (remote : Str) → IsRemoteName remote → all_dark (remote_ref branch remote) ≡ true
  remote_ref_dark remote r =
      all_dark-append remote (slash ∷ branch) r.word.dark (ground (arith, branch_word.dark))

  split_refs :
      (remote : Str) (remotes : List Str)
      → All IsRemoteName (remote ∷ remotes)
      → split_byte newline (front_refs branch remote remotes)
        ≡ map (remote_ref branch) (remote ∷ remotes)
  unfolding front_refs
  split_refs remote [] (r, _) =
      split_byte_self newline (remote_ref branch remote)
        (all_dark_newline (remote_ref branch remote) (remote_ref_dark remote r))
  split_refs remote (next ∷ remotes) (r, rs) =
      split_byte-append newline (remote_ref branch remote) (front_refs branch next remotes)
        (all_dark_newline (remote_ref branch remote) (remote_ref_dark remote r))
      ∙ ap (λ (l : List Str). remote_ref branch remote ∷ l) (split_refs next remotes rs)

  trim_refs :
      (remote : Str) (remotes : List Str)
      → IsRemoteName remote
      → trim_space (printed_refs branch (remote ∷ remotes)) ≡ front_refs branch remote remotes
  trim_refs remote remotes r =
      let (s, first) = front_refs-first remote remotes in
      let (t, last) = front_refs-last remote remotes in
      rw (printed_refs-split branch remote remotes) (
        trim_space_line (front_refs branch remote remotes)
          (rw first (eq_nil-append_cons remote slash s))
          (rw first (starts_dark_front remote (slash ∷ s) r.word.given r.word.dark))
          (rw last (ends_dark t branch branch_word)))

  trim_ref :
      (remote : Str)
      → IsRemoteName remote
      → trim_space (remote_ref branch remote) ≡ remote_ref branch remote
  trim_ref remote r =
      trim_space_dark (remote_ref branch remote)
        (starts_dark_front remote (slash ∷ branch) r.word.given r.word.dark)
        (rw (← append_assoc remote (slash ∷ []) branch)
          (ends_dark (remote ++ slash ∷ []) branch branch_word))

  read_ref_lem :
      (remote : Str) (m : Dict Str)
      → IsRemoteName remote
      → read_ref (trim_space (remote_ref branch remote)) m
        ≡ insert remote (remote_ref branch remote) m
  unfolding read_ref remote_of split_n
  read_ref_lem remote m r =
      ap (λ (t : Str). read_ref t m) (trim_ref remote r)
      ∙ rw (
        eq_nil-append_cons remote slash branch,
        split_n,
        cut_byte-append slash remote branch r.no_slash,
      )

  keys-insert :
      (remote line : Str) (m : Dict Str)
      → lookup remote m ≡ none
      → keys (insert remote line m) ≡ keys m ++ remote ∷ []
  unfolding lookup insert
  keys-insert remote line [] fresh = refl
  keys-insert remote line ((other, _) ∷ m) fresh = ground (arith, keys-insert remote line m)

  -- The remotes that the loop meets come behind those that it has, in their order.
  keys-read_refs :
      (remotes : List Str) (m : Dict Str)
      → All IsRemoteName remotes
      → AreDistinct remotes
      → All (λ (remote : Str). lookup remote m ≡ none) remotes
      → keys (read_refs (map (remote_ref branch) remotes) m) ≡ keys m ++ remotes
  unfolding read_refs
  keys-read_refs [] m names distinct fresh = sym (append-nil (keys m))
  keys-read_refs (remote ∷ remotes) m (r, rs) (others, distinct) (f, fs) =
      ap (λ (m' : Dict Str). keys (read_refs (map (remote_ref branch) remotes) m'))
        (read_ref_lem remote m r)
      ∙ (keys-read_refs remotes (insert remote (remote_ref branch remote) m) rs distinct
            (still_fresh remote (remote_ref branch remote) m remotes others fs)
          ∙ (ap (λ (l : List Str). l ++ remotes) (keys-insert remote (remote_ref branch remote) m f)
              ∙ append_assoc (keys m) (remote ∷ []) remotes))
    where
      still_fresh :
          (remote line : Str) (m : Dict Str) (remotes : List Str)
          → All (λ (other : Str). (remote == other) ≡ false) remotes
          → All (λ (other : Str). lookup other m ≡ none) remotes
          → All (λ (other : Str). lookup other (insert remote line m) ≡ none) remotes
      still_fresh remote line m [] others fresh = tt
      still_fresh remote line m (other ∷ remotes) (o, os) (f, fs) =
          (rw (lookup-insert remote other line m, o) f, still_fresh remote line m remotes os fs)

  found_lem :
      (remote : Str) (remotes : List Str)
      → All IsRemoteName (remote ∷ remotes)
      → found branch (remote ∷ remotes) ≡ read_refs (map (remote_ref branch) (remote ∷ remotes)) []
  found_lem remote remotes names =
      ap (λ (t : Str). read_refs (split_byte newline t) []) (trim_refs remote remotes names.0)
      ∙ ap (λ (l : List Str). read_refs l []) (split_refs remote remotes names)

many_remotes :
    (branch first second : Str) (rest : List Str) (m : Dict Str)
    → keys m ≡ first ∷ second ∷ rest
    → resolved_by branch m ≡ err (multiple_branches_found branch (first ∷ second ∷ rest))
unfolding resolved_by
many_remotes branch first second rest [] h = cc
many_remotes branch first second rest (a ∷ []) h = cc
many_remotes branch first second rest (a ∷ b ∷ m) h = rw h refl

-- What a branch is resolved to: itself, its only remote branch, or nothing.
abbrev pub resolution : Str → Bool → List Str → Result BranchError (Str × Bool)
resolution branch true remotes = ok (branch, false)
resolution branch false [] = err (branch_not_found branch)
resolution branch false (remote ∷ []) = ok (remote_ref branch remote, true)
resolution branch false (a ∷ b ∷ rest) = err (multiple_branches_found branch (a ∷ b ∷ rest))

one_remote :
    (branch remote : Str)
    → IsWord branch
    → IsRemoteName remote
    → resolved_by branch (read_refs (remote_ref branch remote ∷ []) [])
      ≡ ok (remote_ref branch remote, true)
unfolding resolved_by read_refs
one_remote branch remote w r =
    ap (resolved_by branch) (read_ref_lem branch w remote [] r) ∙ unfold insert in refl

no_remote : (branch : Str) → found branch [] ≡ []
unfolding read_refs read_ref split_byte trim_space trim_left ◌==◌ printed_refs
no_remote branch = refl

resolved_found :
    (branch : Str) (remotes : List Str)
    → IsWord branch
    → All IsRemoteName remotes
    → AreDistinct remotes
    → resolved_by branch (found branch remotes) ≡ resolution branch false remotes
resolved_found branch [] w names distinct = rw (no_remote branch) (unfold resolved_by in refl)
resolved_found branch (remote ∷ []) w names distinct =
    ap (resolved_by branch) (found_lem branch w remote [] names)
    ∙ one_remote branch remote w names.0
resolved_found branch (a ∷ b ∷ rest) w names distinct =
    ap (resolved_by branch) (found_lem branch w a (b ∷ rest) names)
    ∙ many_remotes branch a b rest _
        (keys-read_refs branch w (a ∷ b ∷ rest) [] names distinct (no_entries (a ∷ b ∷ rest)))

-- On a git that answers as documented for a branch name that is not refused and has no white space,
-- where the remotes that have the branch have distinct names without white space and slashes, the
-- branch is resolved to itself if it is a local one, and otherwise to the remote branch of that name if
-- there is exactly one; none, and more than one, are errors that name the branch and the remotes.
pub resolve_branch-resolution :
    (git : Git) (branch e combined : Str) (local : Bool) (remotes : List Str)
    → IsWord branch
    → is_unsafe branch ≡ false
    → All IsRemoteName remotes
    → AreDistinct remotes
    → git (show_ref branch) ≡ (if local then succeeded [] [] else exited (some 1) e [])
    → git (for_each_ref branch) ≡ succeeded (printed_refs branch remotes) combined
    → resolve_branch git branch ≡ resolution branch local remotes
unfolding resolve_branch branch_exists get_remote_branches existence_of remote_branches_of
resolve_branch-resolution git branch e combined true remotes w safe names distinct shown printed =
    rw (w.given, safe, shown) refl
resolve_branch-resolution git branch e combined false remotes w safe names distinct shown printed =
    rw (w.given, safe, shown, printed) (resolved_found branch remotes w names distinct)
