-- ===== src/Cli/Add/Create/Course.antt =====
-- What `wtp add` does once git has made the worktree, and what it leaves when git has not.
use wtp.Base.{◌≡◌, Bool, true, false, Option, none, some, List, [], ◌∷◌, ◌++◌}
use wtp.Base.Result.{Result, ok, err}
use wtp.Base.Text.{Str}
use wtp.Procenv.{emit}
use wtp.Cli.Add.{AddInput, AddError, ExecError, exec_failed}
use wtp.Cli.Add.Create.{AddAround, Added}

module _ {G : Type 0} (around : AddAround G) where
  -- The marker that the shell hook reads, unless the user wants to stay.
  abbrev pub marker : Bool → Option Str → List Str
  marker true text = []
  marker false none = []
  marker false (some text) = text ∷ []

  -- The `--exec` command decides whether the command succeeds.
  abbrev pub verdict : Str → Result ExecError (Unit {0}) → Result AddError (Unit {0})
  verdict path (ok _) = ok tt
  verdict path (err e) = err (exec_failed path e)

  module _ (prints : around.files.can_print ≡ true) (marks : around.can_mark ≡ true) where
    -- How the command ends, by how the `--exec` command did.
    abbrev pub IsEnded : AddInput → Str → Added around ExecError → Added around AddError → Type 0
    IsEnded input path (ran, w) ended =
        (ended.0 ≡ verdict path ran)
        × (ended.1.marked ≡ w.marked ++ marker input.stay (emit around.environ path))
