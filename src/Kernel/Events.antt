-- ===== src/Kernel/Events.antt =====
-- What can happen to a `KernelRuntime`, one step of the event loop for each.
use pi_ipython.Common.{ℕ, Text, Bool, List, [], ◌∷◌}
use pi_ipython.Kernel.State.{Kernel, Disk, save_output, add_stderr, terminate}
use pi_ipython.Kernel.Lines.{Line, handle_line}
use pi_ipython.Kernel.Requests.{
  start, start_after_stop, launch, startup_failed, startup_aborted, startup_settled, execute,
  evaluate,
}
use pi_ipython.Kernel.Lifecycle.{
  abort_request, request_timeout, grace_expired, stdin_error, handle_exit, force_stop, kill_group,
  terminated, shutdown, ask_to_stop, shutdown_finished,
}

pub data Event : Type 0 where
  -- Calls of the public methods, and what they go on with after an await.
  start_called start_resumed shutdown_called stop_asked stop_forced : Event
  execute_called : Text → Bool → Event
  evaluate_called : Text → Bool → Event
  output_saved : Disk → Text → Event
  shutdown_ended : Bool → Bool → Event
  -- The startup.
  launched : Bool → List Text → Event
  startup_error : Text → Event
  startup_abort : Text → Event
  startup_end : Event
  -- The child process with this number.
  line_read : Disk → ℕ → Line → Event
  stderr_read : Text → Event
  stdin_failed : ℕ → Text → Event
  exited : ℕ → Text → Event
  -- Listeners and timers of the request with this serial; the timer and the end of `terminate`.
  request_aborted : ℕ → Event
  request_timed_out : ℕ → Event
  grace_over : ℕ → Event
  force_timer_over : ℕ → Event
  -- The timer of `terminateProcessGroup` for this process group.
  group_timer_over : ℕ → Event
  terminate_ended : Bool → Bool → Event

unfoldable pub step : Event → Kernel → Kernel
step Event.start_called k = (start k).1
step Event.start_resumed k = (start_after_stop k).1
step Event.shutdown_called k = shutdown k
step Event.stop_asked k = ask_to_stop k
-- The bridge did not stop within 1.5 s, or was not reached.
step Event.stop_forced k = terminate k
step (Event.execute_called id aborted) k = (execute id aborted k).1
step (Event.evaluate_called seconds aborted) k = (evaluate seconds aborted k).1
step (Event.output_saved disk content) k = (save_output disk content k).1
step (Event.shutdown_ended alive still_alive) k = shutdown_finished alive still_alive k
step (Event.launched aborted code) k = launch aborted code k
step (Event.startup_error message) k = startup_failed message k
step (Event.startup_abort message) k = startup_aborted message k
step Event.startup_end k = startup_settled k
step (Event.line_read disk child line) k = handle_line disk child line k
step (Event.stderr_read chunk) k = add_stderr chunk k
step (Event.stdin_failed child reason) k = stdin_error child reason k
step (Event.exited child reason) k = handle_exit child reason k
step (Event.request_aborted serial) k = abort_request serial k
step (Event.request_timed_out serial) k = request_timeout serial k
step (Event.grace_over serial) k = grace_expired serial k
step (Event.force_timer_over child) k = force_stop child k
step (Event.group_timer_over pgid) k = kill_group pgid k
step (Event.terminate_ended alive still_alive) k = terminated alive still_alive k

unfoldable pub run : List Event → Kernel → Kernel
run [] k = k
run (e ∷ es) k = run es (step e k)
