-- ===== src/Kernel/Tests.antt =====
-- Concrete states of the runtime.
use pi_ipython.Common.{
  ℕ, zero, suc, ◌<◌, Text, text, text_eq, true, false, none, some, List, [], ◌∷◌, ◌++◌, ◌≡◌, refl,
  arith,
}
use pi_ipython.Common.Utf8.{utf8, byte_length}
use pi_ipython.Output.Ansi.{strip_ansi}
use pi_ipython.Protocol.{
  pos, safe, JsonValue, number, string, Fields, field, object, get, BridgeMessage,
  as_bridge_message,
}
use pi_ipython.Protocol.Schema.{IsMessage, as_bridge_message_iff}
use pi_ipython.Kernel.State.{
  output_capture_limit_bytes, Active, Interrupt, Effect, Kernel, fresh, Disk, output_path,
}
use pi_ipython.Kernel.Lines.{as_group, on_message, on_output, extend_output}
use pi_ipython.Kernel.Requests.{execution_options, new_active, execute, rejects, sent}
use pi_ipython.Kernel.Lifecycle.{handle_exit}
use pi_ipython.Kernel.Events.{Event, step, run}
use pi_ipython.Kernel.Invariant.{IsValid}
use pi_ipython.Kernel.Invariant.Steps.{run-fresh-IsValid}
use pi_ipython.Kernel.Settlement.{IsTracked}
use pi_ipython.Kernel.Settlement.Steps.{run-fresh-IsTracked}
use pi_ipython.Kernel.Loss.{
  IsRunning, fatal, bad_group, IsReported, loss-IsReported, refused_message_strands_request,
  cancelled_execute_drops_notice,
}
use pi_ipython.Kernel.Capture.{late_overflow_saves_again}

abbrev disk : Disk
disk = record {
  directory = text "/tmp/pi-ipython-output-1";
  directory_error = none;
  write_error = none;
}

abbrev call : Active
call = new_active (text "call-1") execution_options 0

-- Kernel 0 runs a cell.
abbrev busy_kernel : Kernel
busy_kernel = record fresh {
  child = some 0;
  ready = true;
  active = some call;
  kernel_pgid = some 4711;
  next_child = 1;
  next_serial = 1;
}

busy_kernel-IsRunning : IsRunning 0 call busy_kernel
unfolding fresh
busy_kernel-IsRunning = record { child = refl; ready = refl; active = refl; stopping = refl }

-- A start, a cell whose kernel dies, and the end of the bridge.
abbrev ready_line : JsonValue
ready_line = object (
    field (text "type") (string (text "ready")) (
      field (text "protocol") (number (safe (pos 3))) (
        field (text "kernel_pgid") (number (safe (pos 4711)))
          (field (text "connection_file") (string (text "/run/kernel.json")) Fields.end))))

abbrev history : List Event
history =
    Event.start_called
    ∷ Event.launched false []
    ∷ Event.line_read disk 0 (record { raw = []; parsed = some ready_line })
    ∷ Event.startup_end
    ∷ Event.execute_called (text "call-1") false
    ∷ Event.exited 0 (text "signal SIGKILL")
    ∷ []

run-fresh-IsValid_example : IsValid (run history fresh)
run-fresh-IsValid_example = run-fresh-IsValid history

run-fresh-IsTracked_example : IsTracked 0 (run history fresh)
run-fresh-IsTracked_example = run-fresh-IsTracked history 0

abbrev fatal_fields : Fields
fatal_fields = field (text "type") (string (text "fatal")) (
    field (text "error") (string (text "RuntimeError"))
      (field (text "traceback") (string (text "...")) Fields.end))

abbrev fatal_line : JsonValue
fatal_line = object fatal_fields

abbrev fatal_event : Event
fatal_event = Event.line_read disk 0 (record { raw = []; parsed = some fatal_line })

fatal_message :
    as_bridge_message fatal_line ≡ some (BridgeMessage.fatal (text "RuntimeError") (text "..."))
unfolding get text text_eq IsMessage
fatal_message =
    (as_bridge_message_iff fatal_line (BridgeMessage.fatal (text "RuntimeError") (text "..."))).1
      (refl, refl, refl)

loss-IsReported_example : IsReported (step fatal_event busy_kernel)
unfolding fresh
loss-IsReported_example =
    loss-IsReported 0 call fatal_event busy_kernel busy_kernel-IsRunning refl
      (fatal disk [] (text "RuntimeError") (text "...") fatal_line fatal_message)

refused_message_strands_request_example :
    let after =
      handle_exit 0
        (text "exit")
        (on_message disk (BridgeMessage.kernel_started (safe (pos 1))) busy_kernel) in
    (after.active ≡ some call) × (after.pending_reset ≡ false) × (after.child ≡ none)
unfolding fresh as_group
refused_message_strands_request_example =
    refused_message_strands_request disk (BridgeMessage.kernel_started (safe (pos 1))) 0 call
      busy_kernel (text "exit") busy_kernel-IsRunning refl (bad_group (safe (pos 1)) refl)

-- Kernel 1, after kernel 0 was lost.
abbrev new_kernel : Kernel
new_kernel = record fresh { child = some 1; ready = true; pending_reset = true }

cancelled_execute_drops_notice_example :
    ((execute (text "a") true new_kernel).0 ≡ (true, rejects execution_options.cancel_reason))
    × ((execute (text "b") false (execute (text "a") true new_kernel).1).0 ≡ (false, sent 0))
unfolding fresh
cancelled_execute_drops_notice_example =
    cancelled_execute_drops_notice (text "a") (text "b") new_kernel refl refl refl refl

abbrev figures : List Text
figures = text "iVBO" ∷ text "R0lG" ∷ []

-- As many empty lines.
blanks : ℕ → Text
blanks zero = []
blanks (suc n) = 10 ∷ blanks n

blanks-bytes : (n : ℕ) → byte_length (blanks n ++ []) ≡ n
unfolding blanks utf8
blanks-bytes zero = refl
blanks-bytes (suc n) = omega (arith, blanks-bytes n)

-- A cancelled cell, at the capture limit and one byte.
abbrev cancelled : Interrupt
cancelled = record { reason = text "IPython execution cancelled"; overflow = false }

abbrev late : Active
late = record call { output = blanks 1048577; interrupt = some cancelled }

late-long :
    output_capture_limit_bytes
    < byte_length (extend_output (text "stdout") [] false true late.output)
unfolding extend_output text text_eq
late-long = omega (arith, blanks-bytes 1048577)

abbrev late_kernel : Kernel
late_kernel = record busy_kernel { output_directory = some (text "/tmp/d"); active = some late }

late_overflow_saves_again_example :
    let after = on_output disk (text "stdout") [] false true late late_kernel in
    (after.log
      ≡ Effect.saved
          (output_path (text "/tmp/d") 1)
          (strip_ansi (extend_output (text "stdout") [] false true late.output))
        ∷ [])
    × (after.output_index ≡ 1)
    × (after.active
        ≡ some (record late { output = extend_output (text "stdout") [] false true late.output }))
unfolding fresh
late_overflow_saves_again_example =
    late_overflow_saves_again disk (text "stdout") [] (text "/tmp/d") false true late cancelled
      late_kernel refl refl refl refl refl late-long
