-- ===== src/Maintenance/Schedule/Notices.antt =====
-- What is queued is drained.
use mathlib.Core.List.{append_assoc, append-nil}
use wtp.Base.{◌≡◌, refl, sym, ap, ◌∙◌, Bool, true, false, Option, none, some, List, [], ◌∷◌, ◌++◌}
use wtp.Base.{map}
use wtp.Base.Lists.{All, All-append}
use wtp.Base.Result.{ok}
use wtp.Base.Text.{Str, ◌==◌, has_byte, split_byte, trim_space}
use wtp.Base.Text.Laws.{split_byte-append, eq_nil-append_cons, eq_refl}
use wtp.Maintenance.Schedule.{SyncFiles, text_of, lines_text, appended, queue_notices, tokens}
use wtp.Maintenance.Schedule.{scanned, drained, read_notices, drain_notices}
use wtp.Maintenance.Schedule.Spacing.{no_faults}

-- A line that is a notice: it is not blank, is one line, and the scanner takes it.
pub record IsNotice (fits : Str → Bool) (line : Str) : Type 0 where
  pub dark : (trim_space line == []) ≡ false
  pub one_line : has_byte 10 line ≡ false
  pub short : fits line ≡ true

lines_text-append :
    (lines others : List Str) → lines_text (lines ++ others) ≡ lines_text lines ++ lines_text others
unfolding lines_text
lines_text-append [] others = refl
lines_text-append (line ∷ lines) others =
    ap (λ (s : Str). line ++ 10 ∷ s) (lines_text-append lines others)
    ∙ sym (append_assoc line (10 ∷ lines_text lines) (lines_text others))

module _ (fits : Str → Bool) where
  split_lines_text :
      (lines : List Str)
      → All (IsNotice fits) lines
      → split_byte 10 (lines_text lines) ≡ lines ++ [] ∷ []
  unfolding lines_text split_byte
  split_lines_text [] h = refl
  split_lines_text (line ∷ lines) (h, hs) =
      split_byte-append 10 line (lines_text lines) h.one_line
      ∙ ap (λ (l : List Str). line ∷ l) (split_lines_text lines hs)

  tokens-append : (lines : List Str) → tokens (lines ++ [] ∷ []) ≡ lines
  unfolding tokens ◌==◌
  tokens-append [] = refl
  tokens-append (line ∷ []) = refl
  tokens-append (line ∷ next ∷ lines) =
      ap (λ (l : List Str). line ∷ l) (tokens-append (next ∷ lines))

  scanned-map :
      (lines : List Str)
      → All (IsNotice fits) lines
      → scanned fits lines ≡ some (map trim_space lines)
  unfolding scanned
  scanned-map [] h = refl
  scanned-map (line ∷ lines) (h, hs) = rw (scanned-map lines hs, h.short, h.dark)

  scanned-lines_text :
      (lines : List Str)
      → All (IsNotice fits) lines
      → scanned fits (tokens (split_byte 10 (lines_text lines))) ≡ some (map trim_space lines)
  scanned-lines_text lines h =
      ap (λ (l : List Str). scanned fits (tokens l)) (split_lines_text lines h)
      ∙ ap (scanned fits) (tokens-append lines)
      ∙ scanned-map lines h

  text-queue_notices :
      (lines : List Str) (files : SyncFiles)
      → ((queue_notices no_faults lines files).0 ≡ ok tt)
        × (text_of (queue_notices no_faults lines files).1.notices
            ≡ text_of files.notices ++ lines_text lines)
  unfolding queue_notices appended lines_text
  text-queue_notices [] files = (refl, sym (append-nil (text_of files.notices)))
  text-queue_notices (line ∷ lines) files = (refl, refl)

  read_notices-lines :
      (o : Option Str) (lines : List Str) (files : SyncFiles)
      → All (IsNotice fits) lines
      → files.notices ≡ o
      → text_of o ≡ lines_text lines
      → ((read_notices fits no_faults o files).0 ≡ ok (map trim_space lines))
        × ((read_notices fits no_faults o files).1.notices ≡ none)
  unfolding read_notices drained lines_text
  read_notices-lines none [] files h same text = (refl, same)
  read_notices-lines none (line ∷ lines) files h same text =
      let differs = eq_nil-append_cons line 10 (lines_text lines) in
      cc (rw (← text) at differs, eq_refl [])
  read_notices-lines (some found) lines files h same text =
      let read =
        ap (λ (t : Str). scanned fits (tokens (split_byte 10 t))) text
        ∙ scanned-lines_text lines h in
      rw read (refl, refl)

  -- Where nothing fails: what is queued twice, from an empty queue on, is drained once, all of it in
  -- order with the blanks around each line left away, and the queue is empty afterwards. The lines
  -- are not blank, hold no newline, and are not too long for the scanner.
  pub drain_notices-queue_notices :
      (lines others : List Str) (files : SyncFiles)
      → files.notices ≡ none
      → All (IsNotice fits) lines
      → All (IsNotice fits) others
      → ((drain_notices fits no_faults
            (queue_notices no_faults others (queue_notices no_faults lines files).1).1).0
          ≡ ok (map trim_space (lines ++ others)))
        × ((drain_notices fits no_faults
              (queue_notices no_faults others (queue_notices no_faults lines files).1).1).1.notices
            ≡ none)
  unfolding drain_notices
  drain_notices-queue_notices lines others files empty hl ho =
      let first = (queue_notices no_faults lines files).1 in
      let second = (queue_notices no_faults others first).1 in
      let text : text_of second.notices ≡ lines_text (lines ++ others) =
        (text-queue_notices others first).1
        ∙ ap (λ (s : Str). s ++ lines_text others)
            ((text-queue_notices lines files).1
              ∙ ap (λ (o : Option Str). text_of o ++ lines_text lines) empty)
        ∙ sym (lines_text-append lines others) in
      read_notices-lines second.notices (lines ++ others) second
        (All-append (IsNotice fits) lines others hl ho) refl text
