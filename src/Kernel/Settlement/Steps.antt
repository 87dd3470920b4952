-- ===== src/Kernel/Settlement/Steps.antt =====
-- No event loses a request or settles one twice.
use pi_ipython.Common.{ℕ, List, [], ◌∷◌}
use pi_ipython.Kernel.State.{Kernel, fresh}
use pi_ipython.Kernel.Requests.{execute, evaluate, execution_options}
use pi_ipython.Kernel.Events.{Event, step, run}
use pi_ipython.Kernel.Settlement.{IsTracked}
use pi_ipython.Kernel.Settlement.Handlers.{
  fresh-IsTracked, terminate-IsTracked, save_output-IsTracked, handle_line-IsTracked,
}
use pi_ipython.Kernel.Settlement.Requests.{
  start_after_stop-IsTracked, start-IsTracked, launch-IsTracked, startup_failed-IsTracked,
  startup_aborted-IsTracked, startup_settled-IsTracked, request-IsTracked, abort_request-IsTracked,
  request_timeout-IsTracked, grace_expired-IsTracked,
}
use pi_ipython.Kernel.Settlement.Ends.{
  stdin_error-IsTracked, kill_group-IsTracked, handle_exit-IsTracked, terminated-IsTracked,
  shutdown-IsTracked, ask_to_stop-IsTracked, shutdown_finished-IsTracked, force_stop-IsTracked,
}

module _ (n : ℕ) where
  step-IsTracked : (e : Event) (k : Kernel) → IsTracked n k → IsTracked n (step e k)
  unfolding step execute evaluate
  step-IsTracked Event.start_called k v = start-IsTracked n k v
  step-IsTracked Event.start_resumed k v = start_after_stop-IsTracked n k v
  step-IsTracked Event.shutdown_called k v = shutdown-IsTracked n k v
  step-IsTracked Event.stop_asked k v = ask_to_stop-IsTracked n k v
  step-IsTracked Event.stop_forced k v = terminate-IsTracked n k v
  step-IsTracked (Event.execute_called id aborted) k v =
      request-IsTracked n _ id execution_options aborted v
  step-IsTracked (Event.evaluate_called seconds aborted) k v = request-IsTracked n _ _ _ aborted v
  step-IsTracked (Event.output_saved disk content) k v = save_output-IsTracked n k disk content v
  step-IsTracked (Event.shutdown_ended a b) k v = shutdown_finished-IsTracked n k a b v
  step-IsTracked (Event.launched aborted code) k v = launch-IsTracked n k aborted code v
  step-IsTracked (Event.startup_error t) k v = startup_failed-IsTracked n k t v
  step-IsTracked (Event.startup_abort t) k v = startup_aborted-IsTracked n k t v
  step-IsTracked Event.startup_end k v = startup_settled-IsTracked n k v
  step-IsTracked (Event.line_read disk child line) k v = handle_line-IsTracked n disk child line k v
  step-IsTracked (Event.stderr_read t) k v = v
  step-IsTracked (Event.stdin_failed c t) k v = stdin_error-IsTracked n k c t v
  step-IsTracked (Event.exited c t) k v = handle_exit-IsTracked n k c t v
  step-IsTracked (Event.request_aborted m) k v = abort_request-IsTracked n k m v
  step-IsTracked (Event.request_timed_out m) k v = request_timeout-IsTracked n k m v
  step-IsTracked (Event.grace_over m) k v = grace_expired-IsTracked n k m v
  step-IsTracked (Event.force_timer_over child) k v = force_stop-IsTracked n k child v
  step-IsTracked (Event.group_timer_over pgid) k v = kill_group-IsTracked n k pgid v
  step-IsTracked (Event.terminate_ended a b) k v = terminated-IsTracked n k a b v

  run-IsTracked : (es : List Event) (k : Kernel) → IsTracked n k → IsTracked n (run es k)
  unfolding run
  run-IsTracked [] k v = v
  run-IsTracked (e ∷ es) k v = run-IsTracked es (step e k) (step-IsTracked e k v)

-- No request is lost and none is settled twice: after any history of events, a request that was made
-- is active, waits for the end of `terminate`, or was settled once, and is in only one of these
-- places; a request that was not made is in none.
pub run-fresh-IsTracked : (es : List Event) (n : ℕ) → IsTracked n (run es fresh)
run-fresh-IsTracked es n = run-IsTracked n es fresh (fresh-IsTracked n)
