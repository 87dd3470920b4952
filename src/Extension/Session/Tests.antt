-- ===== src/Extension/Session/Tests.antt =====
-- A concrete session: its services count the runtimes that are open.
use pi_ipython.Common.{
  Text, ◌+◌, ℕ, suc, ◌-◌, text, text_eq, true, false, none, some, List, [], ◌∷◌, ◌≡◌, ◌⊎◌, refl,
}
use pi_ipython.Persistence.Settings.{returns, throws}
use pi_ipython.Cell.{Execution}
use pi_ipython.Extension.Live.{
  new_live, cleared, on_report, on_live_output, on_progress, set_timer, emit_output, Report,
  progressed, printed, timer_over, on_reports,
}
use pi_ipython.Extension.Live.Shown.{IsShown, on_reports-IsShown}
use pi_ipython.Extension.Session.{
  Attempt, done, lost, failed, Services, Running, Session, get_runtime,
}
use pi_ipython.Extension.Session.Cells.{execute_cell, run_cell, end_cell, stop_updates}
use pi_ipython.Extension.Session.Console.{session_shutdown}
use pi_ipython.Extension.Session.Answers.{IsKept}
use pi_ipython.Extension.Session.Lost.{
  thrown, IsTold, IsOther, lost_kernel-IsTold, failed_execute_drops_notices,
}
use pi_ipython.Extension.Session.Record.{IsOneCell, IsOpen, IsUnsaved, execute_cell-IsRecorded}
use pi_ipython.Extension.Session.Held.{IsCount, IsHeld}
use pi_ipython.Extension.{get_notices}
use pi_ipython.Extension.Notices.{occurrences}
use pi_ipython.Extension.Session.Balance.{IsFirst, IsNews, waiting, told_by, drops, act-IsBalanced}
use pi_ipython.Extension.Session.Shutdown.{
  Action, act, executes, toggles, terminates, was_signalled, run_actions,
  run_actions-session_shutdown,
}

abbrev reports : List Report
reports =
    progressed 0 (text "Starting IPython")
    ∷ printed 50 (text "a")
    ∷ printed 60 (text "ab")
    ∷ timer_over 0 100
    ∷ printed 120 (text "abc")
    ∷ []

on_reports-IsShown_example : IsShown (on_reports reports new_live)
on_reports-IsShown_example = on_reports-IsShown reports

abbrev late_reports : List Report
late_reports =
    progressed 1000 (text "Starting IPython")
    ∷ printed 1050 (text "a")
    ∷ printed 1101 (text "ab")
    ∷ []

-- The timeout that the first output set is not cleared when the second one is shown at once, nor at
-- the end of the cell.
stale_timeout : (stop_updates (on_reports late_reports new_live)).pending ≡ (0, 1100) ∷ []
unfolding stop_updates on_reports new_live cleared on_report on_live_output on_progress set_timer
    emit_output
stale_timeout = refl

abbrev quiet_cell : Execution
quiet_cell = record {
  result = record {
    status = text "ok";
    execution_count = none;
    error = none;
    output = text "1";
    images = [];
    images_dropped = 0;
  };
  kernel_reset = true;
}

abbrev toy : Attempt Execution → Services ℕ ℕ
toy end = record {
  create = λ s. (returns s, suc s);
  sync = λ r ids s. (progressed 0 (text "Starting IPython") ∷ [], (done (text "restored" ∷ []), s));
  execute = λ r id code s. (printed 200 (text "1") ∷ [], (end, s));
  connect = λ r s. ([], (returns (text "kernel.json"), s));
  save_output = λ r t s. none;
  save_error = text "disk full";
  save = λ r s. (some (text "id"), s);
  stop = λ r s. s;
  close = λ r s. (throws (text "kernel hangs"), s - 1);
  toggle = λ file s. (returns tt, s);
  shutdown = λ s. (returns tt, s);
  interactive = true;
  shown = λ n. text "1";
}

abbrev fresh : Session ℕ ℕ
fresh = record {
  current = none;
  undelivered = text "old" ∷ [];
  forwarded = [];
  listeners = [];
  next_listener = 0;
  services = 0;
}

abbrev running : Running ℕ
running = record { runtime = 0; sigterm = 0 }

abbrev opened : Session ℕ ℕ
opened = record fresh {
  current = some running;
  listeners = 0 ∷ [];
  next_listener = 1;
  services = 1;
}

lost_end :
    (execute_cell (toy (lost (text "gone"))) (text "call") (text "1") [] fresh).end
    ≡ lost (text "gone")
unfolding execute_cell get_runtime run_cell end_cell
lost_end = refl

script-IsOther : IsOther (text "call") (some (text "script"))
unfolding IsOther text_eq text
script-IsOther = refl

lost_kernel-IsTold_example :
    IsTold
      (some (text "script"))
      (thrown (text "call") (text "ipython") (some (text "script")) none)
      []
      (execute_cell (toy (lost (text "gone"))) (text "call") (text "1") [] fresh).session.forwarded
lost_kernel-IsTold_example =
    lost_kernel-IsTold (toy (lost (text "gone"))) (text "call") (text "1") [] fresh (text "gone")
      (text "ipython") (some (text "script")) none lost_end script-IsOther

failed_execute_drops_notices_example :
    ((execute_cell (toy (failed (text "busy"))) (text "call") (text "1") [] opened).end
      ≡ failed (text "busy"))
    × IsKept
        (toy (failed (text "busy")))
        opened
        (execute_cell (toy (failed (text "busy"))) (text "call") (text "1") [] opened).session
failed_execute_drops_notices_example =
    failed_execute_drops_notices (toy (failed (text "busy"))) running (text "restored" ∷ [])
      (text "call") (text "1") (text "busy") [] opened refl refl refl

runtime_made : (get_runtime (toy (done quiet_cell)) fresh).0 ≡ returns 0
unfolding get_runtime
runtime_made = refl

execute_cell-IsRecorded_example :
    let api = toy (done quiet_cell) in
    let x = execute_cell api (text "call") (text "1") [] fresh in
    let made = (get_runtime api fresh).1 in
    ((¬ IsUnsaved api 0 (text "call") (text "1") [] made) × IsOneCell x.said)
    ⊎ (IsUnsaved api 0 (text "call") (text "1") [] made × IsOpen api (text "1") x)
execute_cell-IsRecorded_example =
    execute_cell-IsRecorded (toy (done quiet_cell)) (text "call") (text "1") [] fresh 0 refl
      runtime_made

toy-IsCount : (end : Attempt Execution) → IsCount (toy end) (λ n. n)
toy-IsCount end = record {
  created = λ s r e. refl;
  refused = λ s m e. cc e;
  closed = λ r s. refl;
  synced = λ r ids s. refl;
  executed = λ r id code s. refl;
  connected = λ r s. refl;
  saved = λ r s. refl;
  saved_output = λ r t path s s1 e. cc e;
  toggled = λ file s. refl;
  stopped = λ r s. refl;
  shut = λ s. refl;
}

abbrev the_actions : List Action
the_actions = executes (text "call") (text "1") [] ∷ toggles [] ∷ terminates ∷ []

abbrev two_cells : Session ℕ ℕ
two_cells = run_actions (toy (done quiet_cell)) the_actions fresh

run_actions-session_shutdown_example :
    IsHeld
      (toy (done quiet_cell))
      (λ n. n)
      (toy-IsCount (done quiet_cell))
      []
      (was_signalled (toy (done quiet_cell)) false the_actions fresh)
      two_cells
    × ((session_shutdown (toy (done quiet_cell)) two_cells).1.listeners ≡ [])
    × ((session_shutdown (toy (done quiet_cell)) two_cells).1.services ≡ 0)
run_actions-session_shutdown_example =
    run_actions-session_shutdown (toy (done quiet_cell)) (λ n. n) (toy-IsCount (done quiet_cell)) []
      the_actions fresh refl refl tt refl

abbrev first_cell : Action
first_cell = executes (text "call") (text "1") []

first_cell-IsFirst : IsFirst (toy (done quiet_cell)) first_cell fresh
unfolding IsFirst get_notices
first_cell-IsFirst = refl

act-IsBalanced_example :
    (news : List Text) × IsNews (toy (done quiet_cell)) first_cell fresh news
    × (waiting (toy (done quiet_cell)) (text "old") (act (toy (done quiet_cell)) first_cell fresh)
          + occurrences (text "old") (told_by (toy (done quiet_cell)) first_cell fresh)
          + drops (toy (done quiet_cell)) (text "old") first_cell fresh
        ≡ waiting (toy (done quiet_cell)) (text "old") fresh + occurrences (text "old") news)
act-IsBalanced_example =
    act-IsBalanced (toy (done quiet_cell)) (text "old") first_cell fresh first_cell-IsFirst
