-- ===== src/Kernel/Settlement/Requests.antt =====
-- The startup, the requests and their timers keep a request in its place.
use pi_ipython.Common.{
  ℕ, ◌+◌, Text, Bool, true, false, none, some, List, [], ◌∷◌, ◌++◌, ◌≡◌, arith, ◌==◌, Bool-cases,
  Option-cases, inl, inr, sym, ap,
}
use pi_ipython.Kernel.State.{Active, Kernel, reject_waiter, signal_group, terminate, interrupt}
use pi_ipython.Kernel.Requests.{
  Options, start, start_after_stop, launch, startup_failed, startup_aborted, startup_settled,
  request, new_active,
}
use pi_ipython.Kernel.Lifecycle.{
  with_serial, grace_text, on_timeout, on_grace, reject_after_stop, abort_request, request_timeout,
  grace_expired,
}
use pi_ipython.Kernel.Settlement.{one_if, settled, awaiting, is_active, places, IsTracked}
use pi_ipython.Kernel.Settlement.Handlers.{
  reject_waiter-IsTracked, terminate-IsTracked, interrupt-IsTracked,
}

module _ (n : ℕ) where
  pub start_after_stop-IsTracked : (k : Kernel) → IsTracked n k → IsTracked n (start_after_stop k).1
  unfolding start_after_stop
  start_after_stop-IsTracked k v = ground arith

  pub start-IsTracked : (k : Kernel) → IsTracked n k → IsTracked n (start k).1
  unfolding start
  start-IsTracked k v = ground (arith, start_after_stop-IsTracked k v)

  pub launch-IsTracked :
      (k : Kernel) (b : Bool) (c : List Text) → IsTracked n k → IsTracked n (launch b c k)
  unfolding launch settled
  launch-IsTracked k b c v = ground arith

  pub startup_failed-IsTracked :
      (k : Kernel) (t : Text) → IsTracked n k → IsTracked n (startup_failed t k)
  unfolding startup_failed settled
  startup_failed-IsTracked k t v = ground arith

  pub startup_aborted-IsTracked :
      (k : Kernel) (t : Text) → IsTracked n k → IsTracked n (startup_aborted t k)
  unfolding startup_aborted
  startup_aborted-IsTracked k t v =
      ground (arith, terminate-IsTracked n (reject_waiter t k) (reject_waiter-IsTracked n k t v))

  pub startup_settled-IsTracked : (k : Kernel) → IsTracked n k → IsTracked n (startup_settled k)
  unfolding startup_settled
  startup_settled-IsTracked k v = ground arith

  pub request-IsTracked :
      (k : Kernel) (id : Text) (o : Options) (b : Bool)
      → IsTracked n k
      → IsTracked n (request id o b k).1
  unfolding request new_active settled
  request-IsTracked k id o b v = ground arith

  pub with_serial-IsTracked :
      (k : Kernel) (m : ℕ) (f : Active → Kernel → Kernel)
      → ((a : Active) → k.active ≡ some a → IsTracked n (f a k))
      → IsTracked n k
      → IsTracked n (with_serial m f k)
  with_serial-IsTracked k m f keeps v = elim (Option-cases k.active) [
    | inl e ↦ rw (e, with_serial) v
    | inr (a, e) ↦
        rw (e, with_serial)
          (elim (Bool-cases (a.serial == m)) [
            | inl same ↦ rw same (keeps a e)
            | inr other ↦ rw other v
          ])
  ]

  pub interrupt_active :
      (k : Kernel) (a : Active) (t : Text)
      → k.active ≡ some a
      → IsTracked n k
      → IsTracked n (interrupt a t false k)
  interrupt_active k a t e v = interrupt-IsTracked n k a t false (ap (is_active n) (sym e)) v

  pub abort_request-IsTracked :
      (k : Kernel) (m : ℕ) → IsTracked n k → IsTracked n (abort_request m k)
  unfolding abort_request
  abort_request-IsTracked k m v =
      with_serial-IsTracked k m (λ a. interrupt a a.cancel_reason false)
        (λ a e. interrupt_active k a a.cancel_reason e v) v

  pub request_timeout-IsTracked :
      (k : Kernel) (m : ℕ) → IsTracked n k → IsTracked n (request_timeout m k)
  unfolding request_timeout on_timeout
  request_timeout-IsTracked k m v = with_serial-IsTracked k m on_timeout timed v
    where
      timed : (a : Active) → k.active ≡ some a → IsTracked n (on_timeout a k)
      timed a e = elim (Option-cases a.timeout_reason) [
        | inl none_set ↦ rw (none_set, on_timeout) v
        | inr (t, set) ↦ rw (set, on_timeout) (interrupt_active k a t e v)
      ]

  -- The active request is taken off and is rejected now, or when `terminate` is done.
  pub awaiting-append :
      (ls : List (ℕ × Text)) (l : ℕ × Text)
      → awaiting n (ls ++ l ∷ []) ≡ awaiting n ls + one_if l.0 n
  unfolding awaiting
  awaiting-append [] l = omega arith
  awaiting-append (m ∷ ls) l = omega (arith, awaiting-append ls l)

  pub terminate-places :
      (k : Kernel)
      → (places n (terminate k) ≡ places n k) × ((terminate k).next_serial ≡ k.next_serial)
  unfolding terminate signal_group settled
  terminate-places k = ground arith

  pub reject_after_stop-places :
      (k : Kernel) (m : ℕ) (t : Text)
      → (places n (reject_after_stop m t k) ≡ places n k + one_if m n)
        × ((reject_after_stop m t k).next_serial ≡ k.next_serial)
  unfolding reject_after_stop settled
  reject_after_stop-places k m t = ground (arith, awaiting-append k.lost (m, t))

  pub lost_active-IsTracked :
      (k : Kernel) (a : Active) (t : Text)
      → k.active ≡ some a
      → IsTracked n k
      → IsTracked n (
          reject_after_stop a.serial t
            (terminate (record k { active = none; pending_reset = true })))
  lost_active-IsTracked k a t e v =
      let k1 = record k { active = none; pending_reset = true } in
      ground (arith, reject_after_stop-places (terminate k1) a.serial t, terminate-places k1)

  pub grace_expired-IsTracked :
      (k : Kernel) (m : ℕ) → IsTracked n k → IsTracked n (grace_expired m k)
  unfolding grace_expired on_grace
  grace_expired-IsTracked k m v = with_serial-IsTracked k m on_grace over v
    where
      over : (a : Active) → k.active ≡ some a → IsTracked n (on_grace a k)
      over a e = elim (Option-cases a.interrupt) [
        | inl quiet ↦ rw (quiet, on_grace) v
        | inr (i, stopped) ↦
            rw (stopped, on_grace) (lost_active-IsTracked k a (grace_text i.reason a) e v)
      ]
