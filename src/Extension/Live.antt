-- ===== src/Extension/Live.antt =====
-- extensions/ipython.ts: the live updates of a running cell, `progress`, `output` and `emitOutput` of
-- `execute`. Times are those of `Date.now()`, in milliseconds.
pub mod Shown
use pi_ipython.Common.{
  ℕ, suc, ◌+◌, ◌-◌, Text, text, Bool, true, false, ◌||◌, Option, none, some, List, [], ◌∷◌, ◌++◌,
  ◌==◌, if◌then◌else◌, is_some, strip_prefix,
}
use pi_ipython.Output.Report.{partial_text}

pub data Status : Type 0 where
  starting running : Status

-- A call of `onUpdate`, with the output that it is about.
pub record Update : Type 0 where
  pub text : Text
  pub status : Status

-- The variables of `execute`. `timer` is `updateTimer`; `pending` are the timeouts that are set and
-- not cleared, with the times when they are over. A timeout has a number of its own.
pub record Live : Type 0 where
  pub latest_output : Text
  pub last_update : ℕ
  pub timer : Option ℕ
  pub pending : List (ℕ × ℕ)
  pub next_timer : ℕ
  -- The updates so far, the last one first.
  pub updates : List Update

unfoldable pub new_live : Live
new_live = record {
  latest_output = [];
  last_update = 0;
  timer = none;
  pending = [];
  next_timer = 0;
  updates = [];
}

-- Is this timeout set, and the others.
unfoldable pub is_pending : ℕ → List (ℕ × ℕ) → Bool
is_pending id [] = false
is_pending id ((i, due) ∷ rest) = (i == id) || is_pending id rest

unfoldable pub without : ℕ → List (ℕ × ℕ) → List (ℕ × ℕ)
without id [] = []
without id ((i, due) ∷ rest) =
    let others = without id rest in if i == id then others else (i, due) ∷ others

-- `if (updateTimer) clearTimeout(updateTimer)`.
unfoldable pub cleared : Option ℕ → List (ℕ × ℕ) → List (ℕ × ℕ)
cleared none pending = pending
cleared (some id) pending = without id pending

-- `emitOutput`.
unfoldable pub emit_output : ℕ → Live → Live
emit_output now l = record l {
  timer = none;
  last_update = now;
  updates = record { text = partial_text l.latest_output; status = running } ∷ l.updates;
}

-- `message.startsWith(…)`.
abbrev pub starts_with : Text → Text → Bool
starts_with message start = is_some (strip_prefix start message)

unfoldable pub status_of_progress : Text → Status
status_of_progress message =
    if starts_with message (text "Starting") || starts_with message (text "Provisioning")
    then starting
    else running

unfoldable pub progress_text : Text → Text → Text
progress_text message [] = message
progress_text message (c ∷ output) = message ++ (text "\n\n" ++ partial_text (c ∷ output))

-- `progress`, without its note in the transcript.
unfoldable pub on_progress : ℕ → Text → Live → Live
on_progress now message l = record l {
  timer = none;
  pending = cleared l.timer l.pending;
  last_update = now;
  updates =
      record { text = progress_text message l.latest_output; status = status_of_progress message }
      ∷ l.updates;
}

-- `Math.max(0, 100 - (now - lastUpdate))`.
abbrev pub update_delay : ℕ → ℕ → ℕ
update_delay now last = last + 100 - now

unfoldable pub set_timer : ℕ → Live → Live
set_timer due l = record l {
  timer = some l.next_timer;
  pending = (l.next_timer, due) ∷ l.pending;
  next_timer = suc l.next_timer;
}

-- `output`, without the transcript.
unfoldable pub on_live_output : ℕ → Text → Live → Live
on_live_output now output l =
    let l1 = record l { latest_output = output } in
    let delay = update_delay now l.last_update in
    if delay == 0
    then emit_output now l1
    else if is_some l.timer
    then l1
    else set_timer (now + delay) l1

-- A timeout that is over calls `emitOutput`.
unfoldable pub on_timer : ℕ → ℕ → Live → Live
on_timer id now l =
    if is_pending id l.pending
    then emit_output now (record l { pending = without id l.pending })
    else l

-- What happens to a running cell, and when.
pub data Report : Type 0 where
  progressed : ℕ → Text → Report
  printed : ℕ → Text → Report
  timer_over : ℕ → ℕ → Report

unfoldable pub on_report : Report → Live → Live
on_report (progressed now message) l = on_progress now message l
on_report (printed now output) l = on_live_output now output l
on_report (timer_over id now) l = on_timer id now l

unfoldable pub on_reports : List Report → Live → Live
on_reports [] l = l
on_reports (r ∷ rs) l = on_reports rs (on_report r l)
