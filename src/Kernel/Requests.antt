-- ===== src/Kernel/Requests.antt =====
-- core/kernel-runtime.ts: starting the kernel, and the requests to it.
use pi_ipython.Common.{
  ℕ, suc, Text, text, text_eq, Bool, true, false, not, ◌&&◌, ◌||◌, Option, none, some, List, [],
  ◌∷◌, ◌++◌, if◌then◌else◌, is_some, decimal,
}
use pi_ipython.Protocol.{JsonValue, describe_error}
use pi_ipython.Kernel.State.{
  ProtocolResult, Active, requested, spawned, startup_rejected, Kernel, emit, shutting_down,
  reject_waiter, terminate,
}

-- What a call of `start` meets: it throws, waits for `terminate`, finds a kernel, or waits for the
-- startup.
pub data Start : Type 0 where
  throws : Text → Start
  waits_for_stop : Start
  running : Start
  waits_for_start : Start

-- `start` from the test for a ready child on.
unfoldable pub start_after_stop : Kernel → Start × Kernel
start_after_stop k =
    if is_some k.child && k.ready
    then (running, k)
    else (waits_for_start, record k { starting = true })

unfoldable pub start : Kernel → Start × Kernel
start k =
    if k.disposed
    then (throws shutting_down, k)
    else if is_some k.terminating
    then (waits_for_stop, k)
    else start_after_stop k

-- `startingEvent.startupCode`: what the listeners added, then the runtime's own snippets.
unfoldable pub startup_code : Text → List Text → List Text → List Text
startup_code modules_dir listeners own =
    listeners
    ++ ((text "__import__('sys').path.insert(0, " ++ (modules_dir ++ text ")"))
        ∷ text "__import__('pi_ipython_interrupt').install(get_ipython().kernel)"
        ∷ text "import headstart as hs"
        ∷ text "hs.install(get_ipython())"
        ∷ own)

abbrev pub startup_cancelled : Text
startup_cancelled = text "IPython startup cancelled"

-- `startKernel` after the environment is there and the listeners' promises are settled: it spawns
-- the bridge, sends it the startup code and sets `readyWaiter`.
unfoldable pub launch : Bool → List Text → Kernel → Kernel
launch aborted code k =
    if aborted
    then emit (startup_rejected startup_cancelled) (record k { starting = false })
    else emit (spawned k.next_child code) (record k {
      child = some k.next_child;
      next_child = suc k.next_child;
      stderr = [];
      stopping = false;
      ready = false;
      waiting = true;
    })

-- `startKernel` fails before it spawns the bridge.
unfoldable pub startup_failed : Text → Kernel → Kernel
startup_failed message k = emit (startup_rejected message) (record k { starting = false })

-- The startup's abort listener and its timeout: the waiter is rejected, and then the kernel is
-- terminated by the handler of the rejection.
unfoldable pub startup_aborted : Text → Kernel → Kernel
startup_aborted message k = if k.waiting then terminate (reject_waiter message k) else k

-- The handler of a rejected waiter, and the end of `startKernel`.
unfoldable pub startup_settled : Kernel → Kernel
startup_settled k = if k.waiting || is_some k.terminating then k else record k { starting = false }

pub record Options : Type 0 where
  pub cancel_reason : Text
  pub timeout_reason : Option Text

pub data Request : Type 0 where
  rejects : Text → Request
  sent : ℕ → Request

abbrev pub unavailable : Text
unavailable = text "IPython kernel is unavailable"

abbrev pub busy : Text
busy = text "IPython kernel is already executing a request"

unfoldable pub new_active : Text → Options → ℕ → Active
new_active id options serial = record {
  serial = serial;
  request_id = id;
  cancel_reason = options.cancel_reason;
  timeout_reason = options.timeout_reason;
  output = [];
  images = [];
  images_dropped = 0;
  interrupt = none;
}

-- `request`. `aborted` is the state of its signal.
unfoldable pub request : Text → Options → Bool → Kernel → Request × Kernel
request id options aborted k =
    if not (is_some k.child && k.ready)
    then (rejects unavailable, k)
    else if is_some k.active
    then (rejects busy, k)
    else if aborted
    then (rejects options.cancel_reason, k)
    else (
      sent k.next_serial,
      emit (requested id) (record k {
        active = some (new_active id options k.next_serial);
        next_serial = suc k.next_serial;
      }),
    )

abbrev pub execution_options : Options
execution_options = record {
  cancel_reason = text "IPython execution cancelled";
  timeout_reason = none;
}

-- `execute` up to its call of `start`.
unfoldable pub execute_start : Bool → Kernel → Start × Kernel
execute_start aborted k =
    if aborted then (throws (text "IPython execution cancelled before it started"), k) else start k

-- `execute` from its return from `start` on: the reset notice is taken, and the cell is sent.
unfoldable pub execute : Text → Bool → Kernel → (Bool × Request) × Kernel
execute id aborted k =
    let sending = request id execution_options aborted (record k { pending_reset = false }) in
    ((k.pending_reset, sending.0), sending.1)

-- The request of `evaluate`. `seconds` is `timeoutMs / 1000` as text.
unfoldable pub evaluate : Text → Bool → Kernel → Request × Kernel
evaluate seconds aborted k =
    request (text "evaluate-" ++ decimal (suc k.evaluate_index))
      (record {
        cancel_reason = text "IPython evaluation cancelled";
        timeout_reason = some (text "IPython evaluation exceeded " ++ (seconds ++ text "s"));
      })
      aborted (record k { evaluate_index = suc k.evaluate_index })

pub data Evaluation : Type 0 where
  value : Option JsonValue → Evaluation
  error : Text → Evaluation

-- The end of `evaluate`.
unfoldable pub evaluation : ProtocolResult → Evaluation
evaluation result =
    if text_eq result.base.status (text "ok")
    then value result.value
    else elim (describe_error result.base.error) [
      | [] ↦ error (text "IPython evaluation failed")
      | c ∷ t ↦ error (c ∷ t)
    ]

-- `getConnectionFile` from its return from `start` on.
unfoldable pub viewer_file : Bool → Kernel → Option Text
viewer_file aborted k =
    if aborted || not k.ready
    then none
    else elim k.connection_file [ none ↦ none | some [] ↦ none | some (c ∷ path) ↦ some (c ∷ path) ]
