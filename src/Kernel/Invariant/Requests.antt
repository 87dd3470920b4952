-- ===== src/Kernel/Invariant/Requests.antt =====
-- The startup, the requests and their timers keep a runtime valid.
use pi_ipython.Common.{
  List, [], ℕ, Text, Bool, false, none, some, List, [], ◌≡◌, arith, ◌==◌, Bool-cases, Option-cases,
  inl, inr, subst,
}
use pi_ipython.Common.Utf8.{utf8}
use pi_ipython.Kernel.State.{Active, Kernel, add_stderr, interrupt}
use pi_ipython.Kernel.Requests.{
  Options, start, start_after_stop, launch, startup_failed, startup_aborted, startup_settled,
  request, execute, evaluate, execution_options, new_active,
}
use pi_ipython.Kernel.Lifecycle.{
  with_serial, on_timeout, on_grace, reject_after_stop, abort_request, request_timeout,
  grace_expired,
}
use pi_ipython.Kernel.Invariant.{IsCaptured, IsActive, IsValid}
use pi_ipython.Kernel.Invariant.Effects.{
  reject_waiter-IsValid, terminate-IsValid, interrupt-IsValid,
}

pub start_after_stop-IsValid : {k : Kernel} → IsValid k → IsValid (start_after_stop k).1
unfolding start_after_stop
start_after_stop-IsValid v = ground arith

pub start-IsValid : {k : Kernel} → IsValid k → IsValid (start k).1
unfolding start
start-IsValid v = ground (arith, start_after_stop-IsValid v)

pub launch-IsValid :
    {k : Kernel} (b : Bool) (code : List Text) → IsValid k → IsValid (launch b code k)
unfolding launch
launch-IsValid b code v = ground arith

pub startup_failed-IsValid : {k : Kernel} (t : Text) → IsValid k → IsValid (startup_failed t k)
unfolding startup_failed
startup_failed-IsValid t v = ground arith

pub startup_settled-IsValid : {k : Kernel} → IsValid k → IsValid (startup_settled k)
unfolding startup_settled
startup_settled-IsValid v = ground arith

pub add_stderr-IsValid : {k : Kernel} (t : Text) → IsValid k → IsValid (add_stderr t k)
add_stderr-IsValid t v = ground arith

pub startup_aborted-IsValid : {k : Kernel} (t : Text) → IsValid k → IsValid (startup_aborted t k)
unfolding startup_aborted
startup_aborted-IsValid t v = ground (arith, terminate-IsValid (reject_waiter-IsValid t v))

pub empty_output : IsCaptured none []
unfolding utf8
empty_output = omega arith

pub request-IsValid :
    {k : Kernel} (id : Text) (o : Options) (b : Bool) → IsValid k → IsValid (request id o b k).1
unfolding request new_active
request-IsValid id o b v = ground (arith, empty_output)

pub execute-IsValid : {k : Kernel} (id : Text) (b : Bool) → IsValid k → IsValid (execute id b k).1
unfolding execute
execute-IsValid id b v = request-IsValid id execution_options b (ground arith)

pub evaluate-IsValid : {k : Kernel} (s : Text) (b : Bool) → IsValid k → IsValid (evaluate s b k).1
unfolding evaluate
evaluate-IsValid s b v = request-IsValid _ _ b (ground arith)

pub with_serial-IsValid :
    {k : Kernel} (n : ℕ) (f : Active → Kernel → Kernel)
    → ((a : Active) → k.active ≡ some a → IsValid (f a k))
    → IsValid k
    → IsValid (with_serial n f k)
with_serial-IsValid {k} n f keeps v = elim (Option-cases k.active) [
  | inl e ↦ rw (e, with_serial) v
  | inr (a, e) ↦
      rw (e, with_serial)
        (elim (Bool-cases (a.serial == n)) [
          | inl same ↦ rw same (keeps a e)
          | inr other ↦ rw other v
        ])
]

pub interrupt_active :
    {k : Kernel} (a : Active) (t : Text)
    → k.active ≡ some a
    → IsValid k
    → IsValid (interrupt a t false k)
interrupt_active {k} a t e v =
    interrupt-IsValid a t false (subst (λ x. IsActive x k.next_serial) e v.request) v

pub abort_request-IsValid : {k : Kernel} (n : ℕ) → IsValid k → IsValid (abort_request n k)
unfolding abort_request
abort_request-IsValid n v =
    with_serial-IsValid n (λ a. interrupt a a.cancel_reason false)
      (λ a e. interrupt_active a a.cancel_reason e v) v

pub request_timeout-IsValid : {k : Kernel} (n : ℕ) → IsValid k → IsValid (request_timeout n k)
unfolding request_timeout on_timeout
request_timeout-IsValid {k} n v = with_serial-IsValid n on_timeout timed v
  where
    timed : (a : Active) → k.active ≡ some a → IsValid (on_timeout a k)
    timed a e = elim (Option-cases a.timeout_reason) [
      | inl none_set ↦ rw (none_set, on_timeout) v
      | inr (t, set) ↦ rw (set, on_timeout) (interrupt_active a t e v)
    ]

pub reject_after_stop-IsValid :
    {k : Kernel} (n : ℕ) (t : Text) → IsValid k → IsValid (reject_after_stop n t k)
unfolding reject_after_stop
reject_after_stop-IsValid n t v = ground arith

pub grace_expired-IsValid : {k : Kernel} (n : ℕ) → IsValid k → IsValid (grace_expired n k)
unfolding grace_expired on_grace
grace_expired-IsValid {k} n v = with_serial-IsValid n on_grace over v
  where
    over : (a : Active) → k.active ≡ some a → IsValid (on_grace a k)
    over a e = elim (Option-cases a.interrupt) [
      | inl quiet ↦ rw (quiet, on_grace) v
      | inr (i, stopped) ↦
          rw (stopped, on_grace)
            (reject_after_stop-IsValid a.serial _ (terminate-IsValid (ground arith)))
    ]
