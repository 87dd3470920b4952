-- ===== src/Kernel/Loss.antt =====
-- How the runtime reports that a kernel and its state were lost.
use pi_ipython.Common.{
  ℕ, Text, text_eq_refl, true, false, none, some, is_some, ◌≡◌, arith, Bool-cases, Option-cases,
  inl, inr,
}
use pi_ipython.Protocol.{
  Number, BridgeMessage, as_bridge_message, invalid_message_reason, JsonValue, is_version,
  invalid_group, unsupported_version, invalid_connection_file,
}
use pi_ipython.Kernel.State.{
  Active, Kernel, Disk, reject_waiter, fail_active, signal_group, terminate,
}
use pi_ipython.Kernel.Lines.{
  as_group, refuse, changed_group, on_invalid, on_kernel_started, on_ready, on_fatal,
  on_bridge_error, on_message, on_line, handle_line, is_child, is_other_group, is_absolute,
  for_active,
}
use pi_ipython.Kernel.Requests.{request, execute, rejects, sent, execution_options}
use pi_ipython.Kernel.Lifecycle.{
  stdin_error, handle_exit, unexpected_exit, terminate_group, grace_expired, on_grace,
  reject_after_stop,
}
use pi_ipython.Kernel.Events.{Event, step}

-- Six ways in which a ready kernel is lost while it runs a request: a malformed message of a known
-- type, a fatal error, an error of the bridge on that request, a broken pipe, an exit, and a cell
-- that ignores its interrupt.
pub data IsLoss (c : ℕ) (a : Active) : Event → Type 0 where
  malformed :
      (d : Disk) (raw reason : Text) (v : JsonValue)
      → as_bridge_message v ≡ none
      → invalid_message_reason v ≡ some reason
      → IsLoss c a (Event.line_read d c (record { raw = raw; parsed = some v }))
  fatal :
      (d : Disk) (raw error traceback : Text) (v : JsonValue)
      → as_bridge_message v ≡ some (BridgeMessage.fatal error traceback)
      → IsLoss c a (Event.line_read d c (record { raw = raw; parsed = some v }))
  bridge_error :
      (d : Disk) (raw error traceback : Text) (v : JsonValue)
      → as_bridge_message v ≡ some (BridgeMessage.bridge_error (some a.request_id) error traceback)
      → IsLoss c a (Event.line_read d c (record { raw = raw; parsed = some v }))
  broken_pipe : (reason : Text) → IsLoss c a (Event.stdin_failed c reason)
  exit : (reason : Text) → IsLoss c a (Event.exited c reason)
  ignored : is_some a.interrupt ≡ true → IsLoss c a (Event.grace_over a.serial)

-- A ready kernel that runs the request `a`, and that nothing stops yet.
pub record IsRunning (c : ℕ) (a : Active) (k : Kernel) : Type 0 where
  pub child : k.child ≡ some c
  pub ready : k.ready ≡ true
  pub active : k.active ≡ some a
  pub stopping : k.stopping ≡ false

abbrev pub IsReported : Kernel → Type 0
IsReported k = (k.active ≡ none) × (k.pending_reset ≡ true) × (k.ready ≡ false)

is_child_of : (c : ℕ) (k : Kernel) → k.child ≡ some c → is_child c k ≡ true
is_child_of c k e = ground arith

module _ (c : ℕ) (a : Active) (k : Kernel) (r : IsRunning c a k) (t : k.terminating ≡ none) where
  on_invalid-IsReported : (reason raw : Text) → IsReported (on_invalid (some reason) raw k)
  unfolding on_invalid reject_waiter fail_active terminate signal_group
  on_invalid-IsReported reason raw = ground arith

  on_fatal-IsReported : (error traceback : Text) → IsReported (on_fatal error traceback k)
  unfolding on_fatal reject_waiter fail_active terminate signal_group
  on_fatal-IsReported error traceback = ground arith

  on_bridge_error-IsReported : (e x : Text) → IsReported (on_bridge_error e x a k)
  unfolding on_bridge_error terminate signal_group
  on_bridge_error-IsReported e x = ground arith

  own_bridge_error-IsReported :
      (e x : Text) → IsReported (for_active a.request_id (on_bridge_error e x) k)
  own_bridge_error-IsReported e x =
      rw (r.active, for_active) (rw (text_eq_refl a.request_id) (on_bridge_error-IsReported e x))

  stdin_error-IsReported : (reason : Text) → IsReported (stdin_error c reason k)
  unfolding stdin_error fail_active terminate signal_group
  stdin_error-IsReported reason = ground arith

  handle_exit-IsReported : (reason : Text) → IsReported (handle_exit c reason k)
  unfolding handle_exit unexpected_exit terminate_group signal_group reject_waiter fail_active
  handle_exit-IsReported reason = ground arith

  grace_expired-IsReported : is_some a.interrupt ≡ true → IsReported (grace_expired a.serial k)
  unfolding grace_expired on_grace reject_after_stop terminate signal_group
  grace_expired-IsReported i = ground arith

-- A ready kernel that nothing stops yet, and that is lost while it runs a request by a malformed
-- message of a known type, a fatal error, an error of the bridge on that request, a broken pipe, an
-- exit, or a cell that ignores its interrupt, leaves the request taken off, and the next result will
-- carry the reset notice; the kernel is not ready any more.
pub loss-IsReported :
    (c : ℕ) (a : Active) (e : Event) (k : Kernel)
    → IsRunning c a k
    → k.terminating ≡ none
    → IsLoss c a e
    → IsReported (step e k)
unfolding step handle_line on_line
loss-IsReported c a e k r t (malformed d raw reason v n i) =
    rw (is_child_of c k r.child)
      (rw (n, on_line) (rw (i, on_line) (on_invalid-IsReported c a k r t reason raw)))
loss-IsReported c a e k r t (fatal d raw error traceback v m) =
    rw (is_child_of c k r.child)
      (rw (m, on_line) (unfold on_message in on_fatal-IsReported c a k r t error traceback))
loss-IsReported c a e k r t (bridge_error d raw error traceback v m) =
    rw (is_child_of c k r.child)
      (rw (m, on_line) (unfold on_message in own_bridge_error-IsReported c a k r t error traceback))
loss-IsReported c a e k r t (broken_pipe reason) = stdin_error-IsReported c a k r t reason
loss-IsReported c a e k r t (exit reason) = handle_exit-IsReported c a k r t reason
loss-IsReported c a e k r t (ignored i) = grace_expired-IsReported c a k r t i

-- A `kernel_started` or `ready` line that conforms to the schema, and whose content is refused.
pub data IsRefused (k : Kernel) : BridgeMessage → Type 0 where
  bad_group : (n : Number) → as_group n ≡ none → IsRefused k (BridgeMessage.kernel_started n)
  bad_version :
      (p n : Number) (file : Text)
      → is_version p ≡ false
      → IsRefused k (BridgeMessage.ready p n file)
  bad_ready_group :
      (p n : Number) (file : Text) → as_group n ≡ none → IsRefused k (BridgeMessage.ready p n file)
  other_group :
      (p n : Number) (pgid : ℕ) (file : Text)
      → as_group n ≡ some pgid
      → is_other_group k.kernel_pgid pgid ≡ true
      → IsRefused k (BridgeMessage.ready p n file)
  bad_connection_file :
      (p n : Number) (file : Text)
      → is_absolute file ≡ false
      → IsRefused k (BridgeMessage.ready p n file)

-- A `ready` message whose connection file is not absolute is refused, for that or for another reason.
relative_file-refused :
    (p n : Number) (file : Text) (k : Kernel)
    → is_absolute file ≡ false
    → (why : Text) × (on_ready p n file k ≡ refuse why k)
unfolding on_ready
relative_file-refused p n file k e = elim (Bool-cases (is_version p)) [
  | inr v ↦ (unsupported_version, rw v)
  | inl v ↦ elim (Option-cases (as_group n)) [
    | inl g ↦ (invalid_group, rw v (rw g))
    | inr (pgid, g) ↦ elim (Bool-cases (is_other_group k.kernel_pgid pgid)) [
      | inl o ↦ (changed_group, rw v (rw g (rw o)))
      | inr o ↦ (invalid_connection_file, rw v (rw g (rw o (rw e))))
    ]
  ]
]

refuse_stranded :
    (c : ℕ) (a : Active) (k : Kernel) (why reason : Text)
    → IsRunning c a k
    → k.terminating ≡ none
    → let after = handle_exit c reason (refuse why k) in
      (after.active ≡ some a) × (after.pending_reset ≡ k.pending_reset) × (after.child ≡ none)
unfolding handle_exit reject_waiter terminate signal_group
refuse_stranded c a k why reason r t = ground arith

on_message-refused :
    (d : Disk) (m : BridgeMessage) (k : Kernel)
    → IsRefused k m
    → (why : Text) × (on_message d m k ≡ refuse why k)
unfolding on_message on_kernel_started on_ready
on_message-refused d m k (bad_group n e) = (invalid_group, rw (e, on_kernel_started))
on_message-refused d m k (bad_version p n file e) = (unsupported_version, rw e)
on_message-refused d m k (bad_ready_group p n file e) = elim (Bool-cases (is_version p)) [
  | inr v ↦ (unsupported_version, rw v)
  | inl v ↦ (invalid_group, rw v (rw e))
]
on_message-refused d m k (other_group p n pgid file e o) = elim (Bool-cases (is_version p)) [
  | inr v ↦ (unsupported_version, rw v)
  | inl v ↦ (changed_group, rw v (rw e (rw o)))
]
on_message-refused d m k (bad_connection_file p n file e) = relative_file-refused p n file k e

-- While a request runs on a ready kernel that nothing stops yet, a `kernel_started` or `ready` message
-- whose content is refused (its group, its version, a group other than the kernel's, a connection file
-- that is not absolute) kills the kernel and leaves the request behind: after the bridge's exit there is no child, the request is
-- still active, unsettled, and no reset notice was set.
pub refused_message_strands_request :
    (d : Disk) (m : BridgeMessage) (c : ℕ) (a : Active) (k : Kernel) (reason : Text)
    → IsRunning c a k
    → k.terminating ≡ none
    → IsRefused k m
    → let after = handle_exit c reason (on_message d m k) in
      (after.active ≡ some a) × (after.pending_reset ≡ k.pending_reset) × (after.child ≡ none)
refused_message_strands_request d m c a k reason r t bad =
    let (why, e) = on_message-refused d m k bad in rw e (refuse_stranded c a k why reason r t)

-- When the signal is aborted after `start` has returned and before the request is made, the cell takes
-- the reset notice with it: what is left of `execute` rejects it, and the next cell, which is sent to
-- the same kernel, is told of no reset.
pub cancelled_execute_drops_notice :
    (id next : Text) (k : Kernel)
    → is_some k.child ≡ true
    → k.ready ≡ true
    → k.active ≡ none
    → k.pending_reset ≡ true
    → ((execute id true k).0 ≡ (true, rejects execution_options.cancel_reason))
      × ((execute next false (execute id true k).1).0 ≡ (false, sent k.next_serial))
unfolding execute request
cancelled_execute_drops_notice id next k c r a p = ground arith
