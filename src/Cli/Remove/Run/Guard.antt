-- ===== src/Cli/Remove/Run/Guard.antt =====
-- What `wtp remove` refuses to touch, and what it leaves alone when git refuses.
use wtp.Base.{◌≡◌, ◌⊎◌, refl, ap, false, Option, none, some, List, [], ◌∷◌}
use wtp.Base.{arith, inl, inr, Bool-cases}
use wtp.Base.Result.{Result, ok, err, Result-cases}
use wtp.Base.Text.{Str}
use wtp.FilePath.{abs, is_path_within}
use wtp.Git.{Worktree, parse_worktree_list_output}
use wtp.Command.{CommandResult, git_worktree_list, git_worktree_remove}
use wtp.Cli.Remove.{RemoveWorld, Around, Flags, RemoveError, failure_of}
use wtp.Cli.Remove.Run.{
  Removed, not_inside, found, target, remove_target, remove_listed, worktree_removed,
}
use wtp.Cli.Remove.Run.{remove_command_with_command_executor}
use wtp.Cli.Remove.Target.{IsFound, find_target_worktree_from_list-cases}

module _ {G : Type 0} (around : Around G) (cwd name : Str) where
  -- A worktree that passes the guard: the first linked one with the name, and the working directory
  -- is not in it.
  pub record IsRemovable (worktrees : List Worktree) (wt : Worktree) : Type 0 where
    pub is_found : IsFound name worktrees wt
    pub abs_target : Str
    pub abs_cwd : Str
    pub target_is : abs around.pwd wt.path ≡ some abs_target
    pub cwd_is : abs around.pwd cwd ≡ some abs_cwd
    pub elsewhere : is_path_within abs_target abs_cwd ≡ false

  not_inside-ok :
      (v wt : Worktree) (t c : Option Str)
      → not_inside around v t c ≡ ok wt
      → (v ≡ wt)
        × ((t' : Str) × (c' : Str) × (t ≡ some t') × (c ≡ some c') × (is_path_within t' c' ≡ false))
  unfolding not_inside
  not_inside-ok v wt none c h = cc
  not_inside-ok v wt (some t) none h = cc
  not_inside-ok v wt (some t) (some c) h = elim (Bool-cases (is_path_within t c)) [
    | inl e ↦ ground (arith, e)
    | inr e ↦ (ground (arith, e), (t, c, refl, refl, e))
  ]

  target-IsRemovable :
      (worktrees : List Worktree) (wt : Worktree)
      → target around cwd name worktrees ≡ ok wt
      → IsRemovable worktrees wt
  unfolding target found
  target-IsRemovable worktrees wt h = elim (find_target_worktree_from_list-cases name worktrees) [
    | inl (v, e, f) ↦
        let (same, (t, c, et, ec, out)) =
          not_inside-ok v wt (abs around.pwd v.path) (abs around.pwd cwd) (rw e at h) in
        rw (← same) (record {
          is_found = f;
          abs_target = t;
          abs_cwd = c;
          target_is = et;
          cwd_is = ec;
          elsewhere = out;
        })
    | inr (e, g, missing) ↦ cc (rw g at h)
  ]

  module _ (flags : Flags) (w : RemoveWorld G) where
    -- The listing, and the world after it.
    abbrev pub listing : Result Str (List CommandResult) × G
    listing = around.execute (git_worktree_list ∷ []) w.git

    abbrev pub listed_world : RemoveWorld G
    listed_world = record w { git = listing.1 }

    abbrev pub run : Removed around
    run = remove_command_with_command_executor around cwd name flags w

    -- The answer to `git worktree remove` of a worktree's path, and the world right after it.
    abbrev pub removal : Worktree → Result Str (List CommandResult) × G
    removal wt = around.execute (git_worktree_remove wt.path flags.force ∷ []) listing.1

    abbrev pub removed_world : Worktree → RemoveWorld G
    removed_world wt = record w { git = (removal wt).1 }

    -- A listing that was read, and a removable worktree in it.
    pub record IsAimed (wt : Worktree) : Type 0 where
      pub answer : CommandResult
      pub others : List CommandResult
      pub answered : listing.0 ≡ ok (answer ∷ others)
      pub chosen : target around cwd name (parse_worktree_list_output answer.output) ≡ ok wt
      pub removable : IsRemovable (parse_worktree_list_output answer.output) wt

    -- How a run can go: it is refused before git is asked to remove anything, or it has an aim.
    abbrev pub Course : Removed around → Type 0
    Course r =
        ((e : RemoveError) × (r ≡ (err e, listed_world)))
        ⊎ ((wt : Worktree) × IsAimed wt
            × (r ≡ remove_target around name flags (ok wt) listed_world))

    remove_listed-Course :
        (l : Result Str (List CommandResult))
        → listing.0 ≡ l
        → Course (remove_listed around cwd name flags l listed_world)
    unfolding remove_listed remove_target
    remove_listed-Course (err e) h = inl (_, refl)
    remove_listed-Course (ok []) h = inl (_, refl)
    remove_listed-Course (ok (r ∷ rest)) h =
        let worktrees = parse_worktree_list_output r.output in
        elim (Result-cases (target around cwd name worktrees)) [
          | inl (wt, t) ↦ inr (
            wt,
            record {
              answer = r;
              others = rest;
              answered = h;
              chosen = t;
              removable = target-IsRemovable worktrees wt t;
            },
            ap (λ (x : Result RemoveError Worktree). remove_target around name flags x listed_world)
                t,
          )
          | inr (e, t) ↦ inl (
            e,
            ap (λ (x : Result RemoveError Worktree). remove_target around name flags x listed_world)
                t,
          )
        ]

    pub run-Course : Course run
    unfolding remove_command_with_command_executor
    run-Course = remove_listed-Course listing.0 refl

    -- A removal is refused before git is asked to remove anything, and has then changed nothing but
    -- for what the listing itself does; or git is asked to remove one worktree, by its path: the
    -- first linked one with the given branch, and the working directory is not in it. What follows
    -- depends only on git's answer, and starts from the world that git has left.
    pub remove-IsAimed :
        ((e : RemoveError) × (run ≡ (err e, listed_world)))
        ⊎ ((wt : Worktree) × IsAimed wt
            × (run
                ≡ worktree_removed around name flags wt
                    (failure_of (removal wt).0)
                    (removed_world wt)))
    unfolding remove_target
    remove-IsAimed = run-Course
