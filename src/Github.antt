-- ===== src/Github.antt =====
-- internal/github/github.go: what is made of the answers of the gh CLI. Decoding JSON is a parameter.
pub mod Tally
use wtp.Base.{
  ℕ, suc, ◌+◌, ◌-◌, Bool, true, false, ◌&&◌, ◌||◌, Option, none, some, List, [], ◌∷◌, ◌++◌,
  if◌then◌else◌, nat_eq, ltb,
}
use wtp.Base.Result.{Result, ok, err}
use wtp.Base.Text.{Str, str, ◌==◌, contains, to_lower, itoa}
use wtp.Base.Lists.{length}

abbrev pub state_ready : Str
state_ready = str "OPEN"

abbrev pub state_draft : Str
state_draft = str "DRAFT"

abbrev pub state_closed : Str
state_closed = str "CLOSED"

abbrev pub state_merged : Str
state_merged = str "MERGED"

-- Also `prViewResponse`, which has the same fields. A time of 0 is no time.
pub record PrInfo : Type 0 where
  pub number : ℕ
  pub state : Str
  pub title : Str
  pub head_branch : Str
  pub is_draft : Bool
  pub closed_at : ℕ

pub record CiStatus : Type 0 where
  pub state : Str
  pub total : ℕ
  pub passing : ℕ
  pub failing : ℕ
  pub pending : ℕ

pub record CheckEntry : Type 0 where
  pub name : Str
  pub state : Str

-- A finished run of gh: its output, an exit with an error and what was printed, or neither.
pub data GhRun : Type 0 where
  succeeded : Str → GhRun
  exited : Str → GhRun
  broken : Str → GhRun

pub data GhError : Type 0 where
  run_failed : Str → GhError
  parse_failed : GhError

-- "Override state for drafts so callers see a single canonical value."
unfoldable pub pr_info : PrInfo → PrInfo
pr_info resp = record resp {
  state = if resp.is_draft && resp.state == state_ready then state_draft else resp.state;
}

decoded_pr : Option PrInfo → Result GhError (Option PrInfo)
unfolding pr_info
decoded_pr none = err parse_failed
decoded_pr (some resp) = ok (some (pr_info resp))

-- `GetPRForBranch` behind the run of gh.
unfoldable pub get_pr_for_branch : (Str → Option PrInfo) → GhRun → Result GhError (Option PrInfo)
unfolding decoded_pr
get_pr_for_branch decode (succeeded stdout) = decoded_pr (decode stdout)
get_pr_for_branch decode (exited stderr) =
    if contains (str "no pull requests found") (to_lower stderr)
    then ok none
    else err (run_failed stderr)
get_pr_for_branch decode (broken stderr) = err (run_failed stderr)

pub data Bucket : Type 0 where
  passes fails waits skips : Bucket

abbrev one_of : Str → List Str → Bool
one_of s [] = false
one_of s (x ∷ xs) = s == x || one_of s xs

-- The `switch` on a check's state.
unfoldable pub bucket : Str → Bucket
bucket state =
    let s = to_lower state in
    if one_of s (str "pass" ∷ str "success" ∷ str "completed" ∷ [])
    then passes
    else if one_of s (
        str "fail"
        ∷ str "failure"
        ∷ str "error"
        ∷ str "timed_out"
        ∷ str "canceled"
        ∷ str "action_required"
        ∷ [])
    then fails
    else if one_of s
        (str "pending" ∷ str "queued" ∷ str "in_progress" ∷ str "waiting" ∷ str "requested" ∷ [])
    then waits
    else if one_of s (str "skipped" ∷ str "neutral" ∷ [])
    then skips
    else waits

unfoldable pub count : Bucket → CiStatus → CiStatus
count passes ci = record ci { passing = ci.passing + 1 }
count fails ci = record ci { failing = ci.failing + 1 }
count waits ci = record ci { pending = ci.pending + 1 }
count skips ci = record ci { total = ci.total - 1 }

unfoldable pub count_all : List CheckEntry → CiStatus → CiStatus
unfolding count
count_all [] ci = ci
count_all (c ∷ cs) ci = count_all cs (count (bucket c.state) ci)

abbrev pub overall : CiStatus → Str
overall ci =
    if ltb 0 ci.failing
    then str "failing"
    else if ltb 0 ci.pending
    then str "pending"
    else str "passing"

-- The loop over the checks and the overall state.
unfoldable pub tally : List CheckEntry → CiStatus
unfolding count_all
tally checks =
    let ci =
      count_all checks
        (record { state = []; total = length checks; passing = 0; failing = 0; pending = 0 }) in
    record ci { state = overall ci }

decoded_ci : Option (List CheckEntry) → Result GhError (Option CiStatus)
unfolding tally
decoded_ci none = err parse_failed
decoded_ci (some []) = ok none
decoded_ci (some (c ∷ cs)) = ok (some (tally (c ∷ cs)))

-- `GetCIStatus` behind the run of gh.
unfoldable pub get_ci_status :
    (Str → Option (List CheckEntry)) → GhRun → Result GhError (Option CiStatus)
unfolding decoded_ci
get_ci_status decode (succeeded stdout) = decoded_ci (decode stdout)
get_ci_status decode (exited stderr) =
    if contains (str "no pull requests found") (to_lower stderr)
      || contains (str "no checks reported") (to_lower stderr)
    then ok none
    else err (run_failed stderr)
get_ci_status decode (broken stderr) = err (run_failed stderr)

-- `FormatPRState`
unfoldable pub format_pr_state : Option PrInfo → Str
format_pr_state none = str "-"
format_pr_state (some pr) =
    (str "#" ++ itoa pr.number)
    ++ (str " "
        ++ (if pr.state == state_merged
            then str "Merged"
            else if pr.state == state_closed
            then str "Closed"
            else if pr.state == state_draft
            then str "Draft"
            else str "Ready"))

-- The bytes of a cross, a disc and a check mark in UTF-8.
abbrev cross : Str
cross = 0xe2 ∷ 0x9c ∷ 0x97 ∷ []

abbrev disc : Str
disc = 0xe2 ∷ 0x97 ∷ 0x8f ∷ []

abbrev check_mark : Str
check_mark = 0xe2 ∷ 0x9c ∷ 0x93 ∷ []

-- `FormatCIStatus`
unfoldable pub format_ci_status : Option CiStatus → Str
format_ci_status none = str "-"
format_ci_status (some ci) =
    if nat_eq ci.total 0
    then str "-"
    else if ltb 0 ci.failing
    then (cross ++ str " ") ++ (itoa ci.failing ++ (str "/" ++ (itoa ci.total ++ str " failing")))
    else if ltb 0 ci.pending
    then (disc ++ str " ") ++ (itoa ci.pending ++ str " pending")
    else check_mark ++ str " CI passing"
