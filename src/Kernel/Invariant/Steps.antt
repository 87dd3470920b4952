-- ===== src/Kernel/Invariant/Steps.antt =====
-- Every event keeps a runtime valid, so it is valid after any history.
use pi_ipython.Common.{List, [], ◌∷◌, List, [], ◌∷◌}
use pi_ipython.Kernel.State.{Kernel, fresh}
use pi_ipython.Kernel.Events.{Event, step, run}
use pi_ipython.Kernel.Invariant.{IsValid}
use pi_ipython.Kernel.Invariant.Effects.{fresh-IsValid, terminate-IsValid, save_output-IsValid}
use pi_ipython.Kernel.Invariant.Handlers.{handle_line-IsValid}
use pi_ipython.Kernel.Invariant.Requests.{
  start_after_stop-IsValid, start-IsValid, launch-IsValid, startup_failed-IsValid,
  startup_settled-IsValid, add_stderr-IsValid, startup_aborted-IsValid, execute-IsValid,
  evaluate-IsValid, abort_request-IsValid, request_timeout-IsValid, grace_expired-IsValid,
}
use pi_ipython.Kernel.Invariant.Ends.{
  stdin_error-IsValid, kill_group-IsValid, handle_exit-IsValid, terminated-IsValid,
  shutdown-IsValid, ask_to_stop-IsValid, shutdown_finished-IsValid, force_stop-IsValid,
}

-- Every event keeps a valid runtime valid.
pub step-IsValid : (e : Event) {k : Kernel} → IsValid k → IsValid (step e k)
unfolding step
step-IsValid Event.start_called v = start-IsValid v
step-IsValid Event.start_resumed v = start_after_stop-IsValid v
step-IsValid Event.shutdown_called v = shutdown-IsValid v
step-IsValid Event.stop_asked v = ask_to_stop-IsValid v
step-IsValid Event.stop_forced v = terminate-IsValid v
step-IsValid (Event.execute_called id aborted) v = execute-IsValid id aborted v
step-IsValid (Event.evaluate_called seconds aborted) v = evaluate-IsValid seconds aborted v
step-IsValid (Event.output_saved disk content) v = save_output-IsValid disk content v
step-IsValid (Event.shutdown_ended a b) v = shutdown_finished-IsValid a b v
step-IsValid (Event.launched aborted code) v = launch-IsValid aborted code v
step-IsValid (Event.startup_error t) v = startup_failed-IsValid t v
step-IsValid (Event.startup_abort t) v = startup_aborted-IsValid t v
step-IsValid Event.startup_end v = startup_settled-IsValid v
step-IsValid (Event.line_read disk child line) v = handle_line-IsValid disk child line v
step-IsValid (Event.stderr_read t) v = add_stderr-IsValid t v
step-IsValid (Event.stdin_failed c t) v = stdin_error-IsValid c t v
step-IsValid (Event.exited c t) v = handle_exit-IsValid c t v
step-IsValid (Event.request_aborted n) v = abort_request-IsValid n v
step-IsValid (Event.request_timed_out n) v = request_timeout-IsValid n v
step-IsValid (Event.grace_over n) v = grace_expired-IsValid n v
step-IsValid (Event.force_timer_over child) v = force_stop-IsValid child v
step-IsValid (Event.group_timer_over pgid) v = kill_group-IsValid pgid v
step-IsValid (Event.terminate_ended a b) v = terminated-IsValid a b v

pub run-IsValid : (es : List Event) {k : Kernel} → IsValid k → IsValid (run es k)
unfolding run
run-IsValid [] v = v
run-IsValid (e ∷ es) v = run-IsValid es (step-IsValid e v)

-- After any history of events a runtime is valid: a ready kernel has a child process; no signal ever
-- went to a process group below 2; the connection file is absolute; and the active request holds at
-- most 4 images of 8 MiB together, and at most 1 MiB of output until it is interrupted.
pub run-fresh-IsValid : (es : List Event) → IsValid (run es fresh)
run-fresh-IsValid es = run-IsValid es fresh-IsValid
