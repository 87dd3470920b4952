-- ===== src/Kernel/Lines.antt =====
-- core/kernel-runtime.ts: `handleLine`, one function for each kind of message.
use pi_ipython.Common.{
  units, ℕ, ◌+◌, Text, text, text_eq, Bool, true, false, not, ◌&&◌, ◌||◌, Option, none, some, List,
  [], ◌∷◌, ◌++◌, ltb, leb, ◌==◌, if◌then◌else◌, length, ends_with_newline, join,
}
use pi_ipython.Common.Utf8.{byte_length}
use pi_ipython.Protocol.{
  pos, negsuc, Number, safe, unsafe, JsonValue, BridgeError, ErrorValue, BridgeMessage,
  as_bridge_message, invalid_message_reason, is_version, invalid_group, unsupported_version,
  invalid_connection_file, non_empty,
}
use pi_ipython.Output.Ansi.{strip_ansi}
use pi_ipython.Output.Report.{format_size}
use pi_ipython.Kernel.State.{
  output_capture_limit_bytes, image_limit, image_limit_bytes, ProtocolResult, Active, resolved,
  rejected, reported, Kernel, emit, Disk, Save, stored, refused, save_output, add_stderr,
  reject_waiter, resolve_waiter, fail_active, terminate, interrupt, note_loss,
}

-- A line of the bridge: its text, and what `JSON.parse` makes of it.
pub record Line : Type 0 where
  pub raw : Text
  pub parsed : Option JsonValue

-- `Number.isSafeInteger(n) && n > 1`, as a process group.
unfoldable pub as_group : Number → Option ℕ
as_group (safe (pos n)) = if ltb 1 n then some n else none
as_group (safe (negsuc n)) = none
as_group (unsafe n) = none

-- `isAbsolute` on a POSIX system.
unfoldable pub is_absolute : Text → Bool
is_absolute [] = false
is_absolute (c ∷ path) = c == b'/'

abbrev pub state_lost : Text
state_lost = text ". The kernel was stopped and all in-memory state was lost."

-- A line that fails the guard.
unfoldable pub on_invalid : Option Text → Text → Kernel → Kernel
on_invalid none raw k = add_stderr (text "\nNon-protocol bridge output: " ++ raw) k
on_invalid (some reason) raw k =
    let k1 = fail_active (reason ++ state_lost) (reject_waiter reason k) in
    terminate (note_loss k1.ready k1)

-- A message whose content is refused: the startup fails and the kernel is killed.
abbrev pub refuse : Text → Kernel → Kernel
refuse reason k = terminate (reject_waiter reason k)

unfoldable pub on_kernel_started : Number → Kernel → Kernel
on_kernel_started number k = elim (as_group number) [
  | none ↦ refuse invalid_group k
  | some pgid ↦ record k { kernel_pgid = some pgid }
]

abbrev pub is_other_group : Option ℕ → ℕ → Bool
is_other_group none pgid = false
is_other_group (some old) pgid = not (old == pgid)

abbrev pub changed_group : Text
changed_group = text "IPython bridge changed kernel process groups during startup"

abbrev pub become_ready : ℕ → Text → Kernel → Kernel
become_ready pgid file k = resolve_waiter (record k {
  kernel_pgid = some pgid;
  connection_file = some file;
  ready = true;
  generation = k.generation + 1;
})

unfoldable pub on_ready : Number → Number → Text → Kernel → Kernel
on_ready protocol number file k =
    let accepted : Kernel = elim (as_group number) [
      | none ↦ refuse invalid_group k
      | some pgid ↦
          if is_other_group k.kernel_pgid pgid
          then refuse changed_group k
          else if is_absolute file
          then become_ready pgid file k
          else refuse invalid_connection_file k
    ] in
    if is_version protocol then accepted else refuse unsupported_version k

-- `[…].filter(Boolean).join("\n")`.
abbrev pub diagnostics : List Text → Text
diagnostics ts = join (10 ∷ []) (non_empty ts)

unfoldable pub on_fatal : Text → Text → Kernel → Kernel
on_fatal error traceback k =
    let details = diagnostics (error ∷ traceback ∷ k.stderr ∷ []) in
    let k1 =
      fail_active (text "IPython bridge failed and kernel state was lost:\n" ++ details)
        (reject_waiter (text "IPython bridge failed:\n" ++ details) k) in
    terminate (note_loss k1.ready k1)

unfoldable pub on_clear : Active → Kernel → Kernel
on_clear a k =
    emit (reported a.serial [])
      (record k { active = some (record a { output = []; images = []; images_dropped = 0 }) })

abbrev pub total_length : List Text → ℕ
total_length [] = 0
total_length (t ∷ ts) = units t + total_length ts

-- An image goes to the end of the list.
unfoldable pub on_image : Text → Active → Kernel → Kernel
on_image png a k =
    if ltb (length a.images) image_limit
      && leb (total_length a.images + units png) image_limit_bytes
    then record k { active = some (record a { images = a.images ++ png ∷ [] }) }
    else record k { active = some (record a { images_dropped = a.images_dropped + 1 }) }

abbrev pub with_newline : Text → Text
with_newline t = t ++ 10 ∷ []

-- The output after a message: a stream goes on; any other kind begins and ends on a line of its own.
unfoldable pub extend_output : Text → Text → Bool → Bool → Text → Text
extend_output kind chunk continuation final output =
    let begun =
      if not continuation && (ltb 0 (length output) && not (ends_with_newline output))
      then with_newline output
      else output in
    let added = begun ++ chunk in
    let ended = if final && not (ends_with_newline added) then with_newline added else added in
    if text_eq kind (text "stdout") || text_eq kind (text "stderr") then output ++ chunk else ended

abbrev pub capture_notice : Save → Text
capture_notice (stored path) = text "Captured output saved to: " ++ path
capture_notice (refused error) = text "Could not save captured output: " ++ error

pub overflow_reason : Save → Text
overflow_reason save =
    text "IPython output exceeded "
    ++ (format_size output_capture_limit_bytes ++ (text ". " ++ capture_notice save))

abbrev pub overflowed : Active → Bool
overflowed a = elim a.interrupt [ none ↦ false | some i ↦ i.overflow ]

-- The output passed the limit: it is saved, and the cell is interrupted.
unfoldable pub on_overflow : Disk → Active → Kernel → Kernel
on_overflow disk a k =
    let result = save_output disk (strip_ansi a.output) k in
    interrupt a (overflow_reason result.0) true result.1

unfoldable pub on_output : Disk → Text → Text → Bool → Bool → Active → Kernel → Kernel
on_output disk kind chunk continuation final a k =
    let a1 = record a { output = extend_output kind chunk continuation final a.output } in
    let k1 = record k { active = some a1 } in
    if overflowed a
    then k
    else if ltb output_capture_limit_bytes (byte_length a1.output)
    then on_overflow disk a1 k1
    else emit (reported a.serial a1.output) k1

unfoldable pub on_bridge_error : Text → Text → Active → Kernel → Kernel
on_bridge_error error traceback a k = terminate (
    emit
      (rejected a.serial (
        text "IPython bridge error; kernel state was lost:\n"
        ++ diagnostics (error ∷ traceback ∷ [])))
      (record k { active = none; pending_reset = true }))

abbrev pub error_of : Option ErrorValue → Option BridgeError
error_of none = none
error_of (some e) = some (record { ename = some e.ename; evalue = some e.evalue })

abbrev pub interrupted_note : Text
interrupted_note = text "; interrupted, kernel state preserved.\n\n"

-- The result that a request resolves with.
unfoldable pub final_result :
    Text → Option Number → Option JsonValue → Option ErrorValue → Active → ProtocolResult
final_result status count value error a = elim a.interrupt [
  | none ↦ record {
    base = record {
      status = status;
      execution_count = count;
      error = error_of error;
      output = a.output;
      images = a.images;
      images_dropped = a.images_dropped;
    };
    value = value;
  }
  | some i ↦ record {
    base = record {
      status = text "error";
      execution_count = count;
      error = some (record { ename = some (text "Interrupted"); evalue = some i.reason });
      output = i.reason ++ (interrupted_note ++ a.output);
      images = a.images;
      images_dropped = a.images_dropped;
    };
    value = value;
  }
]

unfoldable pub on_result :
    Text → Option Number → Option JsonValue → Option ErrorValue → Active → Kernel → Kernel
on_result status count value error a k =
    emit (resolved a.serial (final_result status count value error a)) (record k { active = none })

-- Only the active request's messages are read.
abbrev pub for_active : Text → (Active → Kernel → Kernel) → Kernel → Kernel
for_active id f k = elim k.active [
  | none ↦ k
  | some a ↦ if text_eq id a.request_id then f a k else k
]

unfoldable pub on_message : Disk → BridgeMessage → Kernel → Kernel
on_message disk (BridgeMessage.kernel_started pgid) k = on_kernel_started pgid k
on_message disk (BridgeMessage.ready protocol pgid file) k = on_ready protocol pgid file k
on_message disk (BridgeMessage.fatal error traceback) k = on_fatal error traceback k
on_message disk (BridgeMessage.clear id) k = for_active id on_clear k
on_message disk (BridgeMessage.image id png) k = for_active id (on_image png) k
on_message disk (BridgeMessage.output id kind chunk continuation final) k =
    for_active id (on_output disk kind chunk continuation final) k
on_message disk (BridgeMessage.bridge_error none error traceback) k = k
on_message disk (BridgeMessage.bridge_error (some id) error traceback) k =
    for_active id (on_bridge_error error traceback) k
on_message disk (BridgeMessage.result id status count value error) k =
    for_active id (on_result status count value error) k

-- A line of the bridge that is the runtime's child.
unfoldable pub on_line : Disk → Line → Kernel → Kernel
on_line disk line k = elim line.parsed [
  | none ↦ on_invalid none line.raw k
  | some v ↦ elim (as_bridge_message v) [
    | none ↦ on_invalid (invalid_message_reason v) line.raw k
    | some m ↦ on_message disk m k
  ]
]

-- `this.child === child`.
abbrev pub is_child : ℕ → Kernel → Bool
is_child child k = elim k.child [ none ↦ false | some c ↦ c == child ]

-- `handleLine`.
unfoldable pub handle_line : Disk → ℕ → Line → Kernel → Kernel
handle_line disk child line k = if is_child child k then on_line disk line k else k
