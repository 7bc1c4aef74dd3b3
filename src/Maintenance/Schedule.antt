-- ===== src/Maintenance/Schedule.antt =====
-- internal/maintenance/schedule.go: when a sync is due, who may refresh, and the queue of notices.
-- Times are nanoseconds, and an interval is not negative. The lock of the notices is taken as
-- exclusive: to queue and to drain are one step each.
pub mod Spacing
pub mod Notices
use wtp.Base.{ℕ, ◌+◌, Bool, true, false, not, ◌&&◌, Option, none, some, List, [], ◌∷◌, ◌++◌, ltb}
use wtp.Base.{nat_eq, if◌then◌else◌}
use wtp.Base.Result.{Result, ok, err}
use wtp.Base.Text.{Str, str, ◌==◌, split_byte, trim_space}
use wtp.Base.Dict.{Dict, lookup, insert}
use wtp.FilePath.{join}

-- The files of the directory of syncs: the times of the markers and the text of the notices.
pub record SyncFiles : Type 0 where
  pub last_run : Option ℕ
  pub markers : Dict ℕ
  pub notices : Option Str
  pub legacy_throttles : Bool

-- The steps that fail. A touch that fails leaves the time of the write; a write of notices that fails
-- may have added a part of them.
pub record SyncFaults : Type 0 where
  pub stat : Bool
  pub ensure_dir : Bool
  pub lock : Bool
  pub open_file : Bool
  pub write : Bool
  pub touch : Option ℕ
  pub partial : Option Str
  pub close : Bool
  pub remove : Bool

pub data ScheduleError : Type 0 where
  not_ensured not_locked not_opened not_written not_touched not_closed : ScheduleError
  not_inspected not_read not_cleared : ScheduleError

-- `strings.ReplaceAll(repoKey, "/", "--")`
unfoldable pub flattened : Str → Str
flattened [] = []
flattened (c ∷ key) =
    let rest = flattened key in if nat_eq c b'/' then str "--" ++ rest else c ∷ rest

unfoldable pub refresh_marker : Str → Str → Str
unfolding flattened
refresh_marker sync_dir repo_key = join (join sync_dir (str "refresh")) (flattened repo_key)

-- The time since `t` is at least the interval: `now.Sub(t) >= interval`.
abbrev pub has_passed : ℕ → ℕ → ℕ → Bool
has_passed t interval now = not (ltb now (t + interval))

unfoldable pub last_full_sync : SyncFaults → SyncFiles → Option ℕ
last_full_sync faults files = if faults.stat then none else files.last_run

unfoldable pub is_due : SyncFaults → ℕ → ℕ → SyncFiles → Bool
unfolding last_full_sync
is_due faults now interval files = elim (last_full_sync faults files) [
  | none ↦ true
  | some last ↦ has_passed last interval now
]

abbrev pub Marked : Type 0
Marked = Result ScheduleError (Unit {0}) × SyncFiles

-- The file is written with the time of the file system, which the touch replaces.
touched : SyncFaults → ℕ → SyncFiles → Marked
touched faults now files = elim faults.touch [
  | some clock ↦ (err not_touched, record files { last_run = some clock })
  | none ↦ (ok tt, record files { last_run = some now; legacy_throttles = false })
]

unfoldable pub mark_full_sync : SyncFaults → ℕ → SyncFiles → Marked
unfolding touched
mark_full_sync faults now files =
    if faults.ensure_dir
    then (err not_ensured, files)
    else if faults.write
    then (err not_written, files)
    else touched faults now files

-- The time that a marker which is written gets.
abbrev marked_at : SyncFaults → ℕ → ℕ
marked_at faults now = elim faults.touch [ none ↦ now | some clock ↦ clock ]

-- Whether the marker is there and its interval has not passed.
too_soon : SyncFaults → Option ℕ → ℕ → ℕ → Bool
too_soon faults none interval now = false
too_soon faults (some t) interval now = not faults.stat && not (has_passed t interval now)

unfoldable pub claim_refresh : Str → SyncFaults → ℕ → Str → ℕ → SyncFiles → Bool × SyncFiles
unfolding too_soon
claim_refresh sync_dir faults now repo_key interval files =
    let marker = refresh_marker sync_dir repo_key in
    if too_soon faults (lookup marker files.markers) interval now
    then (false, files)
    else if faults.ensure_dir
    then (true, files)
    else if faults.write
    then (true, files)
    else (true, record files { markers = insert marker (marked_at faults now) files.markers })

-- One line after the other, each with a newline.
unfoldable pub lines_text : List Str → Str
lines_text [] = []
lines_text (line ∷ lines) = line ++ 10 ∷ lines_text lines

abbrev text_of : Option Str → Str
text_of none = []
text_of (some text) = text

-- The open file, to which the lines are appended.
appended : SyncFaults → List Str → SyncFiles → Marked
appended faults lines files = elim faults.partial [
  | some part ↦ (err not_written, record files { notices = some (text_of files.notices ++ part) })
  | none ↦ (
    (if faults.close then err not_closed else ok tt),
    record files { notices = some (text_of files.notices ++ lines_text lines) },
  )
]

unfoldable pub queue_notices : SyncFaults → List Str → SyncFiles → Marked
unfolding appended
queue_notices faults [] files = (ok tt, files)
queue_notices faults (line ∷ lines) files =
    if faults.ensure_dir
    then (err not_ensured, files)
    else if faults.lock
    then (err not_locked, files)
    else if faults.open_file
    then (err not_opened, files)
    else appended faults (line ∷ lines) files

-- The lines that a text is scanned as: behind the last newline there is one only if it is not empty.
unfoldable pub tokens : List Str → List Str
tokens [] = []
tokens (last ∷ []) = if last == [] then [] else last ∷ []
tokens (line ∷ next ∷ lines) = line ∷ tokens (next ∷ lines)

-- The loop over the lines of the text. `fits` says which lines `bufio.Scanner` takes; at one that it
-- does not take it stops with an error.
unfoldable pub scanned : (Str → Bool) → List Str → Option (List Str)
scanned fits [] = some []
scanned fits (line ∷ lines) = elim (scanned fits lines) [
  | none ↦ none
  | some rest ↦
      if not (fits line)
      then none
      else if trim_space line == []
      then some rest
      else some (trim_space line ∷ rest)
]

drained : SyncFaults → Option (List Str) → SyncFiles → Result ScheduleError (List Str) × SyncFiles
drained faults none files = (err not_read, files)
drained faults (some lines) files =
    if faults.remove then (err not_cleared, files) else (ok lines, record files { notices = none })

read_notices :
    (Str → Bool) → SyncFaults → Option Str → SyncFiles → Result ScheduleError (List Str) × SyncFiles
unfolding drained scanned tokens
read_notices fits faults none files = (ok [], files)
read_notices fits faults (some text) files =
    if faults.lock
    then (err not_locked, files)
    else if faults.open_file
    then (err not_opened, files)
    else drained faults (scanned fits (tokens (split_byte 10 text))) files

unfoldable pub drain_notices :
    (Str → Bool) → SyncFaults → SyncFiles → Result ScheduleError (List Str) × SyncFiles
unfolding read_notices
drain_notices fits faults files =
    if faults.stat then (err not_inspected, files) else read_notices fits faults files.notices files
