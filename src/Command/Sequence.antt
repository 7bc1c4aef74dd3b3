-- ===== src/Command/Sequence.antt =====
-- The executor runs its commands one after the other.
use wtp.Base.{◌≡◌, refl, ap, List, [], ◌∷◌, ◌++◌, map}
use wtp.Base.Result.{ok}
use wtp.Command.{Command, CommandResult, Shell, run_all, execute}

module _ {G : Type 0} (shell : Shell G) where
  run_all-append :
      (cs ds : List Command) (g : G)
      → run_all shell (cs ++ ds) g ≡ (
        (run_all shell cs g).0 ++ (run_all shell ds (run_all shell cs g).1).0,
        (run_all shell ds (run_all shell cs g).1).1,
      )
  unfolding run_all
  run_all-append [] ds g = refl
  run_all-append (c ∷ cs) ds g =
      let (output, error, g') = shell c.name c.args c.work_dir c.interactive g in
      rw (run_all-append cs ds g')

  run_all-commands :
      (cs : List Command) (g : G)
      → map (λ (r : CommandResult). r.command) (run_all shell cs g).0 ≡ cs
  unfolding run_all
  run_all-commands [] g = refl
  run_all-commands (c ∷ cs) g =
      ap (λ (rest : List Command). c ∷ rest)
        (run_all-commands cs (shell c.name c.args c.work_dir c.interactive g).2)

  -- A failing command does not stop the ones behind it: every command is run once, in order, from the
  -- state that those before it left, and has its own result, in order.
  execute-append :
      (cs ds : List Command) (g : G)
      → (execute shell (cs ++ ds) g ≡ (
        ok ((run_all shell cs g).0 ++ (run_all shell ds (run_all shell cs g).1).0),
        (run_all shell ds (run_all shell cs g).1).1,
      ))
        × (map (λ (r : CommandResult). r.command) (run_all shell (cs ++ ds) g).0 ≡ cs ++ ds)
  unfolding execute
  execute-append cs ds g = (rw (run_all-append cs ds g), run_all-commands (cs ++ ds) g)
