-- ===== src/Kernel/Lifecycle.antt =====
-- core/kernel-runtime.ts: the timers and listeners of a request, the loss of the bridge, and the
-- ends of `terminate` and `shutdown`.
use pi_ipython.Common.{
  ℕ, Text, text, Bool, true, false, ◌&&◌, ◌||◌, Option, none, some, List, [], ◌∷◌, ◌++◌, ◌==◌,
  if◌then◌else◌, is_some, leb,
}
use pi_ipython.Output.Report.{partial_text}
use pi_ipython.Kernel.State.{
  Active, rejected, removed, sigterm, sigkill, signalled_bridge, asked_to_stop, Kernel, emit,
  add_stderr, reject_waiter, fail_active, signal_group, terminate, interrupt, note_loss,
}
use pi_ipython.Kernel.Lines.{is_child}

-- `this.active === active`.
abbrev pub with_serial : ℕ → (Active → Kernel → Kernel) → Kernel → Kernel
with_serial serial f k = elim k.active [
  | none ↦ k
  | some a ↦ if a.serial == serial then f a k else k
]

-- The abort listener of a request.
unfoldable pub abort_request : ℕ → Kernel → Kernel
abort_request serial = with_serial serial (λ a. interrupt a a.cancel_reason false)

unfoldable pub on_timeout : Active → Kernel → Kernel
on_timeout a k = elim a.timeout_reason [ none ↦ k | some reason ↦ interrupt a reason false k ]

-- The timeout of a request that has one.
unfoldable pub request_timeout : ℕ → Kernel → Kernel
request_timeout serial = with_serial serial on_timeout

abbrev pub grace_text : Text → Active → Text
grace_text reason a =
    reason
    ++ (text
          ". The cell did not stop within 3s; the kernel was killed and in-memory state was lost.\n\n"
        ++ partial_text a.output)

-- `terminate().finally(() => active.reject(…))`: at once where nothing is being terminated.
unfoldable pub reject_after_stop : ℕ → Text → Kernel → Kernel
reject_after_stop serial message k =
    if is_some k.terminating
    then record k { lost = k.lost ++ (serial, message) ∷ [] }
    else emit (rejected serial message) k

unfoldable pub on_grace : Active → Kernel → Kernel
on_grace a k = elim a.interrupt [
  | none ↦ k
  | some i ↦
      reject_after_stop a.serial (grace_text i.reason a)
        (terminate (record k { active = none; pending_reset = true }))
]

-- The grace timer that `interrupt` sets.
unfoldable pub grace_expired : ℕ → Kernel → Kernel
grace_expired serial = with_serial serial on_grace

-- `handleStdinError`.
unfoldable pub stdin_error : ℕ → Text → Kernel → Kernel
stdin_error child reason k =
    if is_child child k
    then terminate (
        fail_active
          (text "Failed to communicate with IPython. The kernel state was lost: " ++ reason)
          (note_loss k.ready (add_stderr (text "\nBridge stdin failed: " ++ reason) k)))
    else k

-- `terminateProcessGroup`: a signal, and a timer for another a second later.
unfoldable pub terminate_group : Option ℕ → Kernel → Kernel
terminate_group none k = k
terminate_group (some pgid) k =
    signal_group (some pgid) sigterm (record k { group_timers = pgid ∷ k.group_timers })

unfoldable pub has_timer : ℕ → List ℕ → Bool
has_timer pgid [] = false
has_timer pgid (p ∷ ps) = (p == pgid) || has_timer pgid ps

unfoldable pub without_timer : ℕ → List ℕ → List ℕ
without_timer pgid [] = []
without_timer pgid (p ∷ ps) = let rest = without_timer pgid ps in if p == pgid then ps else p ∷ rest

-- That timer is over.
unfoldable pub kill_group : ℕ → Kernel → Kernel
kill_group pgid k =
    if has_timer pgid k.group_timers
    then signal_group (some pgid) sigkill
        (record k { group_timers = without_timer pgid k.group_timers })
    else k

-- White space and line ends, as ECMAScript lists them.
abbrev pub is_space : ℕ → Bool
is_space c =
    (c == 32 || (leb 9 c && leb c 13))
    || (c == 160 || (c == 5760 || (leb 8192 c && leb c 8202)))
    || ((c == 8232 || c == 8233) || (c == 8239 || c == 8287))
    || (c == 12288 || c == 65279)

unfoldable pub trim_start : Text → Text
trim_start [] = []
trim_start (c ∷ t) = let rest = trim_start t in if is_space c then rest else c ∷ t

-- `stderr.trim()`.
unfoldable pub trim : Text → Text
trim t = mathlib.Core.List.reverse (trim_start (mathlib.Core.List.reverse (trim_start t)))

abbrev pub suffix_of : Text → Text
suffix_of [] = []
suffix_of (c ∷ t) = 10 ∷ c ∷ t

-- An exit that nothing asked for.
unfoldable pub unexpected_exit : Bool → Option ℕ → Text → Text → Kernel → Kernel
unexpected_exit had_state pgid reason suffix k =
    fail_active
      (text "IPython "
        ++ (reason ++ (text ". The kernel stopped and all in-memory state was lost." ++ suffix)))
      (note_loss had_state (terminate_group pgid k))

-- `handleExit`.
unfoldable pub handle_exit : ℕ → Text → Kernel → Kernel
handle_exit child reason k =
    let suffix = suffix_of (trim k.stderr) in
    let gone = reject_waiter (text "IPython " ++ (reason ++ suffix)) (record k {
      child = none;
      kernel_pgid = none;
      connection_file = none;
      ready = false;
      stopping = false;
    }) in
    let lost =
      if k.stopping then gone else unexpected_exit k.ready k.kernel_pgid reason suffix gone in
    if is_child child k then lost else k

unfoldable pub kill_groups : ℕ → Option ℕ → Kernel → Kernel
kill_groups child pgid k = emit (signalled_bridge child sigkill) (signal_group pgid sigkill k)

-- The timer `forceTimer` of `terminate`, which the end of `processStopping` clears.
unfoldable pub force_stop : ℕ → Kernel → Kernel
force_stop child k = elim k.terminating [ none ↦ k | some pgid ↦ kill_groups child pgid k ]

-- The rejections that waited for the end of `terminate`.
unfoldable pub reject_lost : List (ℕ × Text) → Kernel → Kernel
reject_lost [] k = k
reject_lost ((serial, message) ∷ rest) k = reject_lost rest (emit (rejected serial message) k)

abbrev pub same_group : Option ℕ → Option ℕ → Bool
same_group none none = true
same_group none (some b) = false
same_group (some a) none = false
same_group (some a) (some b) = a == b

-- `reapProcessGroup`: is the group alive, and still so after the first signal?
unfoldable pub reap_group : Bool → Bool → Option ℕ → Kernel → Kernel
reap_group alive still_alive pgid k =
    if alive
    then (if still_alive
        then signal_group pgid sigkill (signal_group pgid sigterm k)
        else signal_group pgid sigterm k)
    else k

unfoldable pub finish_terminate : Bool → Bool → Option ℕ → Kernel → Kernel
finish_terminate alive still_alive pgid k =
    let reaped = reap_group alive still_alive pgid k in
    reject_lost k.lost (record reaped {
      kernel_pgid = if same_group k.kernel_pgid pgid then none else k.kernel_pgid;
      terminating = none;
      lost = [];
    })

-- The end of `terminate`: the process group is reaped, and what waited goes on.
unfoldable pub terminated : Bool → Bool → Kernel → Kernel
terminated alive still_alive k = elim k.terminating [
  | none ↦ k
  | some pgid ↦ finish_terminate alive still_alive pgid k
]

-- `shutdown`, up to its first await: `lifecycle.abort()` reaches the active request's listener.
unfoldable pub shutdown : Kernel → Kernel
shutdown k =
    let disposed = record k { disposed = true } in
    elim k.active [ none ↦ disposed | some a ↦ interrupt a a.cancel_reason false disposed ]

-- `shutdownRuntime` once startup and termination are over: the bridge is asked to stop.
unfoldable pub ask_to_stop : Kernel → Kernel
ask_to_stop k =
    let seen = record k { closing = some k.kernel_pgid } in
    elim k.child [
      | none ↦ seen
      | some child ↦ emit (asked_to_stop child) (record seen { stopping = true })
    ]

unfoldable pub remove_directory : Option Text → Kernel → Kernel
remove_directory none k = k
remove_directory (some directory) k = emit (removed directory) k

-- The end of `shutdownRuntime`.
unfoldable pub shutdown_finished : Bool → Bool → Kernel → Kernel
shutdown_finished alive still_alive k = elim k.closing [
  | none ↦ k
  | some pgid ↦ remove_directory k.output_directory (reap_group alive still_alive pgid k)
]
