-- ===== src/Kernel/Settlement/Handlers.antt =====
-- The bridge's lines neither lose a request nor settle one twice.
use pi_ipython.Common.{
  ℕ, Text, text_eq, Bool, true, Option, none, some, ◌≡◌, arith, ltb, Bool-cases, Option-cases, inl,
  inr,
}
use pi_ipython.Common.Utf8.{byte_length}
use pi_ipython.Protocol.{
  Number, JsonValue, ErrorValue, BridgeMessage, as_bridge_message, invalid_message_reason,
  is_version,
}
use pi_ipython.Output.Ansi.{strip_ansi}
use pi_ipython.Kernel.State.{
  output_capture_limit_bytes, Active, Signal, Kernel, fresh, Disk, write_output, save_output,
  reject_waiter, resolve_waiter, fail_active, signal_group, terminate, interrupt,
}
use pi_ipython.Kernel.Lines.{
  Line, as_group, is_absolute, on_invalid, on_kernel_started, on_ready, on_fatal, on_clear,
  on_image, on_output, on_overflow, on_bridge_error, on_result, on_message, on_line, handle_line,
  extend_output, refuse, for_active, is_child, is_other_group, overflowed,
}
use pi_ipython.Kernel.Settlement.{settled, awaiting, is_active, IsTracked}

module _ (n : ℕ) where
  pub fresh-IsTracked : IsTracked n fresh
  unfolding fresh settled awaiting
  fresh-IsTracked = ground arith

  pub reject_waiter-IsTracked :
      (k : Kernel) (t : Text) → IsTracked n k → IsTracked n (reject_waiter t k)
  unfolding reject_waiter settled
  reject_waiter-IsTracked k t v = ground arith

  resolve_waiter-IsTracked : (k : Kernel) → IsTracked n k → IsTracked n (resolve_waiter k)
  unfolding resolve_waiter settled
  resolve_waiter-IsTracked k v = ground arith

  pub fail_active-IsTracked :
      (k : Kernel) (t : Text) → IsTracked n k → IsTracked n (fail_active t k)
  unfolding fail_active settled
  fail_active-IsTracked k t v = ground arith

  pub signal_group-IsTracked :
      (k : Kernel) (g : Option ℕ) (s : Signal) → IsTracked n k → IsTracked n (signal_group g s k)
  unfolding signal_group settled
  signal_group-IsTracked k none s v = v
  signal_group-IsTracked k (some g) s v = ground arith

  pub terminate-IsTracked : (k : Kernel) → IsTracked n k → IsTracked n (terminate k)
  unfolding terminate signal_group settled
  terminate-IsTracked k v = ground arith

  pub interrupt-IsTracked :
      (k : Kernel) (a : Active) (t : Text) (o : Bool)
      → is_active n (some a) ≡ is_active n k.active
      → IsTracked n k
      → IsTracked n (interrupt a t o k)
  unfolding interrupt signal_group settled
  interrupt-IsTracked k a t o e v = ground arith

  pub save_output-IsTracked :
      (k : Kernel) (d : Disk) (t : Text) → IsTracked n k → IsTracked n (save_output d t k).1
  unfolding save_output write_output settled
  save_output-IsTracked k d t v = ground arith

  save_output-active : (k : Kernel) (d : Disk) (t : Text) → (save_output d t k).1.active ≡ k.active
  unfolding save_output write_output
  save_output-active k d t = ground arith

  on_invalid-IsTracked :
      (k : Kernel) (r : Option Text) (t : Text) → IsTracked n k → IsTracked n (on_invalid r t k)
  unfolding on_invalid
  on_invalid-IsTracked k none t v = v
  on_invalid-IsTracked k (some r) t v =
      terminate-IsTracked _ (fail_active-IsTracked _ _ (reject_waiter-IsTracked k r v))

  refuse-IsTracked : (k : Kernel) (t : Text) → IsTracked n k → IsTracked n (refuse t k)
  refuse-IsTracked k t v = terminate-IsTracked _ (reject_waiter-IsTracked k t v)

  on_kernel_started-IsTracked :
      (k : Kernel) (g : Number) → IsTracked n k → IsTracked n (on_kernel_started g k)
  unfolding on_kernel_started
  on_kernel_started-IsTracked k g v = elim (Option-cases (as_group g)) [
    | inl e ↦ rw (e, on_kernel_started) (refuse-IsTracked k _ v)
    | inr (pgid, e) ↦ rw (e, on_kernel_started) v
  ]

  on_ready-IsTracked :
      (k : Kernel) (p g : Number) (f : Text) → IsTracked n k → IsTracked n (on_ready p g f k)
  unfolding on_ready
  on_ready-IsTracked k p g file v = elim (Bool-cases (is_version p)) [
    | inr e ↦ rw e (refuse-IsTracked k _ v)
    | inl e ↦ rw e (elim (Option-cases (as_group g)) [
      | inl f ↦ rw f (refuse-IsTracked k _ v)
      | inr (pgid, f) ↦ rw f (elim (Bool-cases (is_other_group k.kernel_pgid pgid)) [
        | inl h ↦ rw h (refuse-IsTracked k _ v)
        | inr h ↦ rw h (elim (Bool-cases (is_absolute file)) [
          | inr i ↦ rw i (refuse-IsTracked k _ v)
          | inl i ↦ rw i (resolve_waiter-IsTracked _ v)
        ])
      ])
    ])
  ]

  on_fatal-IsTracked : (k : Kernel) (e t : Text) → IsTracked n k → IsTracked n (on_fatal e t k)
  unfolding on_fatal
  on_fatal-IsTracked k e t v =
      terminate-IsTracked _ (fail_active-IsTracked _ _ (reject_waiter-IsTracked k _ v))

  abbrev Keeps : (Active → Kernel → Kernel) → Type 0
  Keeps f = (a : Active) (k : Kernel) → k.active ≡ some a → IsTracked n k → IsTracked n (f a k)

  for_active-IsTracked :
      (k : Kernel) (id : Text) (f : Active → Kernel → Kernel)
      → Keeps f
      → IsTracked n k
      → IsTracked n (for_active id f k)
  for_active-IsTracked k id f keeps v = elim (Option-cases k.active) [
    | inl e ↦ rw (e, for_active) v
    | inr (a, e) ↦
        rw (e, for_active)
          (elim (Bool-cases (text_eq id a.request_id)) [
            | inl same ↦ rw same (keeps a k e v)
            | inr other ↦ rw other v
          ])
  ]

  on_clear-IsTracked : Keeps on_clear
  unfolding on_clear settled
  on_clear-IsTracked a k e v = ground arith

  on_image-IsTracked : (png : Text) → Keeps (on_image png)
  unfolding on_image
  on_image-IsTracked png a k e v = ground arith

  on_bridge_error-IsTracked : (e t : Text) → Keeps (on_bridge_error e t)
  unfolding on_bridge_error settled
  on_bridge_error-IsTracked e t a k h v = terminate-IsTracked _ (ground arith)

  on_result-IsTracked :
      (s : Text) (c : Option Number) (x : Option JsonValue) (e : Option ErrorValue)
      → Keeps (on_result s c x e)
  unfolding on_result settled
  on_result-IsTracked s c x e a k h v = ground arith

  on_output-IsTracked :
      (d : Disk) (kind chunk : Text) (c f : Bool) → Keeps (on_output d kind chunk c f)
  unfolding on_output on_overflow settled
  on_output-IsTracked d kind chunk c f a k e v =
      let output = extend_output kind chunk c f a.output in
      let a1 = record a { output = output } in
      let k1 = record k { active = some a1 } in
      elim (Bool-cases (overflowed a)) [
        | inl o ↦ rw o v
        | inr o ↦ rw o (elim (Bool-cases (ltb output_capture_limit_bytes (byte_length output))) [
          | inl large ↦ rw large (
              interrupt-IsTracked _ a1 _ true
                (ground (arith, save_output-active k1 d (strip_ansi output)))
                (save_output-IsTracked k1 d (strip_ansi output) (ground arith)))
          | inr small ↦ rw small (ground arith)
        ])
      ]

  on_message-IsTracked :
      (d : Disk) (m : BridgeMessage) (k : Kernel) → IsTracked n k → IsTracked n (on_message d m k)
  unfolding on_message
  on_message-IsTracked d (BridgeMessage.kernel_started g) k v = on_kernel_started-IsTracked k g v
  on_message-IsTracked d (BridgeMessage.ready p g f) k v = on_ready-IsTracked k p g f v
  on_message-IsTracked d (BridgeMessage.fatal e t) k v = on_fatal-IsTracked k e t v
  on_message-IsTracked d (BridgeMessage.clear id) k v =
      for_active-IsTracked k id on_clear on_clear-IsTracked v
  on_message-IsTracked d (BridgeMessage.image id png) k v =
      for_active-IsTracked k id (on_image png) (on_image-IsTracked png) v
  on_message-IsTracked d (BridgeMessage.output id kind chunk c f) k v =
      for_active-IsTracked k id (on_output d kind chunk c f) (on_output-IsTracked d kind chunk c f)
        v
  on_message-IsTracked d (BridgeMessage.bridge_error none e t) k v = v
  on_message-IsTracked d (BridgeMessage.bridge_error (some id) e t) k v =
      for_active-IsTracked k id (on_bridge_error e t) (on_bridge_error-IsTracked e t) v
  on_message-IsTracked d (BridgeMessage.result id s c x e) k v =
      for_active-IsTracked k id (on_result s c x e) (on_result-IsTracked s c x e) v

  on_line-IsTracked :
      (d : Disk) (l : Line) (k : Kernel) → IsTracked n k → IsTracked n (on_line d l k)
  unfolding on_line
  on_line-IsTracked d l k v = elim (Option-cases l.parsed) [
    | inl e ↦ rw e (on_invalid-IsTracked k none l.raw v)
    | inr (j, e) ↦ rw e (elim (Option-cases (as_bridge_message j)) [
      | inl f ↦ rw (f, on_line) (on_invalid-IsTracked k (invalid_message_reason j) l.raw v)
      | inr (m, f) ↦ rw (f, on_line) (on_message-IsTracked d m k v)
    ])
  ]

  pub handle_line-IsTracked :
      (d : Disk) (c : ℕ) (l : Line) (k : Kernel) → IsTracked n k → IsTracked n (handle_line d c l k)
  unfolding handle_line
  handle_line-IsTracked d c l k v = elim (Bool-cases (is_child c k)) [
    | inr e ↦ rw e v
    | inl e ↦ rw e (on_line-IsTracked d l k v)
  ]
