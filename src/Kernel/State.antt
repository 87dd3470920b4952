-- ===== src/Kernel/State.antt =====
-- core/kernel-runtime.ts: the fields of `KernelRuntime`, its effects, and the private methods that
-- the handlers share.
use pi_ipython.Common.{
  units, drop_units, ℕ, suc, ◌-◌, ◌*◌, Text, text, Bool, true, false, ◌||◌, Option, none, some,
  List, [], ◌∷◌, ◌++◌, if◌then◌else◌, is_some, decimal,
}
use pi_ipython.Protocol.{JsonValue, BridgeResult}

abbrev pub output_capture_limit_bytes : ℕ
output_capture_limit_bytes = 1024 * 1024

abbrev pub image_limit : ℕ
image_limit = 4

abbrev pub image_limit_bytes : ℕ
image_limit_bytes = 8 * 1024 * 1024

pub record ProtocolResult : Type 0 where
  pub base : BridgeResult
  pub value : Option JsonValue

pub record Interrupt : Type 0 where
  pub reason : Text
  pub overflow : Bool

-- `ActiveExecution`, with the reasons that its abort listener and its timeout carry. `serial` tells
-- the objects apart, where the source compares them by identity.
pub record Active : Type 0 where
  pub serial : ℕ
  pub request_id : Text
  pub cancel_reason : Text
  pub timeout_reason : Option Text
  pub output : Text
  pub images : List Text
  pub images_dropped : ℕ
  pub interrupt : Option Interrupt

pub data Signal : Type 0 where
  sigint sigterm sigkill : Signal

-- What the runtime does to the outside.
pub data Effect : Type 0 where
  -- `readyWaiter.resolve()` and `readyWaiter.reject(error)`.
  started : Effect
  startup_rejected : Text → Effect
  -- A request's promise, by its serial. Each rejection is a `KernelLostError`.
  resolved : ℕ → ProtocolResult → Effect
  rejected : ℕ → Text → Effect
  -- `onOutput`.
  reported : ℕ → Text → Effect
  -- A signal to the process group of the kernel, or to the bridge's.
  signalled : ℕ → Signal → Effect
  signalled_bridge : ℕ → Signal → Effect
  -- A file that `saveOutput` wrote, and the directory that `shutdown` removes.
  saved : Text → Text → Effect
  removed : Text → Effect
  -- A request, the startup code and the shutdown message on the bridge's stdin.
  requested : Text → Effect
  spawned : ℕ → List Text → Effect
  asked_to_stop : ℕ → Effect

pub record Kernel : Type 0 where
  pub child : Option ℕ
  pub ready : Bool
  pub waiting : Bool
  pub starting : Bool
  pub active : Option Active
  pub stderr : Text
  pub stopping : Bool
  -- `stoppingPromise`, with the process group that its `terminate` call saw.
  pub terminating : Option (Option ℕ)
  -- The process group that `shutdownRuntime` saw when it asked the bridge to stop.
  pub closing : Option (Option ℕ)
  pub kernel_pgid : Option ℕ
  pub connection_file : Option Text
  pub pending_reset : Bool
  pub disposed : Bool
  pub evaluate_index : ℕ
  pub output_directory : Option Text
  pub output_index : ℕ
  pub generation : ℕ
  -- The rejections that wait for `terminate` to finish.
  pub lost : List (ℕ × Text)
  -- The process groups with a timer of `terminateProcessGroup`.
  pub group_timers : List ℕ
  pub next_child : ℕ
  pub next_serial : ℕ
  -- The effects so far, the last one first.
  pub log : List Effect

-- A new `KernelRuntime`.
unfoldable pub fresh : Kernel
fresh = record {
  child = none;
  ready = false;
  waiting = false;
  starting = false;
  active = none;
  stderr = [];
  stopping = false;
  terminating = none;
  closing = none;
  kernel_pgid = none;
  connection_file = none;
  pending_reset = false;
  disposed = false;
  evaluate_index = 0;
  output_directory = none;
  output_index = 0;
  generation = 0;
  lost = [];
  group_timers = [];
  next_child = 0;
  next_serial = 0;
  log = [];
}

abbrev pub emit : Effect → Kernel → Kernel
emit e k = record k { log = e ∷ k.log }

-- What the file system answers to one call of `saveOutput`.
pub record Disk : Type 0 where
  pub directory : Text
  pub directory_error : Option Text
  pub write_error : Option Text

pub data Save : Type 0 where
  stored : Text → Save
  refused : Text → Save

abbrev pub shutting_down : Text
shutting_down = text "IPython runtime is shutting down"

-- `join(directory, …)`, for a directory that is no root.
unfoldable pub output_path : Text → ℕ → Text
output_path directory n = directory ++ (text "/output-" ++ (decimal n ++ text ".txt"))

-- The write of `saveOutput`, once there is a directory.
unfoldable pub write_output : Disk → Text → Text → Kernel → Save × Kernel
write_output disk directory content k =
    let path = output_path directory (suc k.output_index) in
    let numbered = record k {
      output_directory = some directory;
      output_index = suc k.output_index;
    } in
    elim disk.write_error [
      | some error ↦ (refused error, numbered)
      | none ↦ (stored path, emit (saved path content) numbered)
    ]

unfoldable pub save_output : Disk → Text → Kernel → Save × Kernel
save_output disk content k =
    let made : Save × Kernel = elim disk.directory_error [
      | some error ↦ (refused error, k)
      | none ↦ write_output disk disk.directory content k
    ] in
    let go : Save × Kernel = elim k.output_directory [
      | some directory ↦ write_output disk directory content k
      | none ↦ made
    ] in
    if k.disposed then (refused shutting_down, k) else go

-- `stderr.slice(-16_384)`.
unfoldable pub last_stderr : Text → Text
last_stderr t = drop_units (units t - 16384) t

abbrev pub add_stderr : Text → Kernel → Kernel
add_stderr t k = record k { stderr = last_stderr (k.stderr ++ t) }

-- `readyWaiter?.reject(error)`. It settles the startup once.
unfoldable pub reject_waiter : Text → Kernel → Kernel
reject_waiter message k =
    if k.waiting then emit (startup_rejected message) (record k { waiting = false }) else k

unfoldable pub resolve_waiter : Kernel → Kernel
resolve_waiter k = if k.waiting then emit started (record k { waiting = false }) else k

-- `failActive`.
unfoldable pub fail_active : Text → Kernel → Kernel
fail_active message k = elim k.active [
  | none ↦ k
  | some a ↦ emit (rejected a.serial message) (record k { active = none })
]

-- `signalProcessGroup`.
unfoldable pub signal_group : Option ℕ → Signal → Kernel → Kernel
signal_group none signal k = k
signal_group (some pgid) signal k = emit (signalled pgid signal) k

-- The start of `terminate`; `terminated` (Lifecycle) is its end. `kill` is the same call.
unfoldable pub terminate : Kernel → Kernel
terminate k =
    let stop : Kernel = elim k.child [
      | none ↦ k
      | some child ↦ emit (signalled_bridge child sigterm) (
          signal_group k.kernel_pgid sigterm
            (record k { stopping = true; ready = false; terminating = some k.kernel_pgid }))
    ] in
    if is_some k.terminating then k else stop

-- `interrupt`. Its grace timer is the event `grace_expired`.
unfoldable pub interrupt : Active → Text → Bool → Kernel → Kernel
interrupt a reason overflow k =
    if is_some a.interrupt
    then k
    else signal_group k.kernel_pgid sigint (record k {
      active =
          some (record a { interrupt = some (record { reason = reason; overflow = overflow }) });
    })

-- `pendingResetNotice ||= ready`.
abbrev pub note_loss : Bool → Kernel → Kernel
note_loss had_state k = record k { pending_reset = k.pending_reset || had_state }
