-- ===== src/Tests/Schedules.antt =====
-- The schedule at concrete times.
use wtp.Base.{Bool, ◌≤◌, ◌≡◌, ◌↔◌, refl, true, none, some, [], ◌∷◌, ltb}
use wtp.Base.{if◌then◌else◌}
use wtp.Base.Lists.{length}
use wtp.Base.Result.{ok}
use wtp.Base.Text.{Str, str, ◌==◌, has_byte, trim_space}
use wtp.Base.Dict.{lookup}
use wtp.Maintenance.Schedule.{SyncFiles, refresh_marker, claim_refresh}
use wtp.Maintenance.Schedule.{queue_notices, drain_notices}
use wtp.Maintenance.Schedule.Spacing.{no_faults, claim, claim_refresh-claim_refresh}
use wtp.Maintenance.Schedule.Notices.{IsNotice, drain_notices-queue_notices}

abbrev no_files : SyncFiles
no_files = record { last_run = none; markers = []; notices = none; legacy_throttles = true }

claim_refresh-claim_refresh_example :
    (((claim_refresh
          (str "/d")
          no_faults
          150
          (str "o/r")
          60
          (claim (str "/d") 100 (str "o/r") 60 no_files).1).0
        ≡ true)
      ↔ (160 ≤ 150))
    × ((j : Str)
        → lookup j (claim (str "/d") 100 (str "o/r") 60 no_files).1.markers
          ≡ (if refresh_marker (str "/d") (str "o/r") == j then some 100 else lookup j []))
unfolding claim_refresh lookup
claim_refresh-claim_refresh_example =
    claim_refresh-claim_refresh (str "/d") 100 (str "o/r") 60 no_files refl 150 60

abbrev fits : Str → Bool
fits line = ltb (length line) 65536

hello-IsNotice : IsNotice fits (str " hello")
unfolding trim_space ◌==◌ has_byte
hello-IsNotice = record { dark = refl; one_line = refl; short = refl }

drain_notices-queue_notices_example :
    ((drain_notices fits no_faults
        (queue_notices no_faults
          (str " hello" ∷ [])
          (queue_notices no_faults (str " hello" ∷ []) no_files).1).1).0
      ≡ ok (str "hello" ∷ str "hello" ∷ []))
    × ((drain_notices fits no_faults
          (queue_notices no_faults
            (str " hello" ∷ [])
            (queue_notices no_faults (str " hello" ∷ []) no_files).1).1).1.notices
        ≡ none)
unfolding trim_space
drain_notices-queue_notices_example =
    drain_notices-queue_notices fits (str " hello" ∷ []) (str " hello" ∷ []) no_files refl
      (hello-IsNotice, tt) (hello-IsNotice, tt)
