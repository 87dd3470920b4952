-- ===== src/Kernel/Invariant/Handlers.antt =====
-- Every line of the bridge keeps a runtime valid.
use pi_ipython.Common.{
  units, ℕ, ◌+◌, ◌≤◌, ◌<◌, Text, text_eq, Bool, true, false, Option, none, some, List, [], ◌∷◌,
  ◌++◌, is_some, length, length-append, ◌≡◌, arith, ltb, Bool-cases, Option-cases, inl, inr, subst,
  sym,
}
use pi_ipython.Common.Utf8.{utf8, byte_length}
use pi_ipython.Protocol.{
  Number, JsonValue, ErrorValue, BridgeMessage, as_bridge_message, invalid_message_reason,
}
use pi_ipython.Output.Ansi.{strip_ansi}
use pi_ipython.Kernel.State.{
  write_output, output_capture_limit_bytes, image_limit, image_limit_bytes, Interrupt, Active,
  Kernel, emit, reported, Disk, save_output, signal_group, interrupt,
}
use pi_ipython.Kernel.Lines.{
  Line, on_clear, on_image, on_output, on_overflow, on_bridge_error, on_result, on_message, on_line,
  handle_line, extend_output, total_length, for_active, is_child, overflowed,
}
use pi_ipython.Kernel.Invariant.{IsCaptured, IsValid}
use pi_ipython.Kernel.Invariant.Effects.{terminate-IsValid, save_output-IsValid}
use pi_ipython.Kernel.Invariant.Startup.{
  on_invalid-IsValid, on_kernel_started-IsValid, on_ready-IsValid, on_fatal-IsValid,
}

-- `f` keeps a runtime valid when it is called on its active request.
abbrev Keeps : (Active → Kernel → Kernel) → Type 0
Keeps f = (a : Active) (k : Kernel) → k.active ≡ some a → IsValid k → IsValid (f a k)

for_active-IsValid :
    {k : Kernel} (id : Text) (f : Active → Kernel → Kernel)
    → Keeps f
    → IsValid k
    → IsValid (for_active id f k)
for_active-IsValid {k} id f keeps v = elim (Option-cases k.active) [
  | inl e ↦ rw (e, for_active) v
  | inr (a, e) ↦
      rw (e, for_active)
        (elim (Bool-cases (text_eq id a.request_id)) [
          | inl same ↦ rw same (keeps a k e v)
          | inr other ↦ rw other v
        ])
]

IsCaptured-nil : (i : Option Interrupt) → IsCaptured i []
unfolding utf8
IsCaptured-nil none = omega arith
IsCaptured-nil (some i) = tt

on_clear-IsValid : Keeps on_clear
unfolding on_clear
on_clear-IsValid a k e v = ground (arith, IsCaptured-nil a.interrupt)

total_length-append :
    (ts : List Text) (t : Text) → total_length (ts ++ t ∷ []) ≡ total_length ts + units t
total_length-append [] t = omega arith
total_length-append (s ∷ ts) t = omega (arith, total_length-append ts t)

on_image-IsValid : (png : Text) → Keeps (on_image png)
unfolding on_image
on_image-IsValid png a k e v =
    ground (arith, total_length-append a.images png, length-append a.images (png ∷ []))

on_bridge_error-IsValid : (e t : Text) → Keeps (on_bridge_error e t)
unfolding on_bridge_error
on_bridge_error-IsValid e t a k h v = terminate-IsValid (ground arith)

on_result-IsValid :
    (status : Text) (count : Option Number) (value : Option JsonValue) (error : Option ErrorValue)
    → Keeps (on_result status count value error)
unfolding on_result
on_result-IsValid status count value error a k e v = ground arith

-- Leaving out what is known of the active request.
abbrev IsValidRest : Kernel → Type 0
IsValidRest k = IsValid (record k { active = none })

save_output_rest :
    (k : Kernel) (d : Disk) (t : Text)
    → IsValidRest k
    → IsValidRest (save_output d t k).1 × ((save_output d t k).1.next_serial ≡ k.next_serial)
unfolding save_output write_output
save_output_rest k d t v = ground arith

interrupt_first :
    (k : Kernel) (a : Active) (t : Text) (o : Bool)
    → a.interrupt ≡ none
    → a.serial < k.next_serial
    → length a.images ≤ image_limit
    → total_length a.images ≤ image_limit_bytes
    → IsValidRest k
    → IsValid (interrupt a t o k)
unfolding interrupt signal_group
interrupt_first k a t o e s i b v = ground arith

-- What holds of an active request but for its output.
abbrev IsSound : Active → ℕ → Type 0
IsSound a next =
    (a.serial < next)
    × (length a.images ≤ image_limit)
    × (total_length a.images ≤ image_limit_bytes)

IsSound-IsActive :
    (k : Kernel) (a : Active)
    → IsSound a k.next_serial
    → IsCaptured a.interrupt a.output
    → IsValid k
    → IsValid (record k { active = some a })
IsSound-IsActive k a s c v = ground arith

interrupt_again :
    (k : Kernel) (a : Active) (i : Interrupt) (t : Text) (o : Bool)
    → a.interrupt ≡ some i
    → interrupt a t o k ≡ k
unfolding interrupt
interrupt_again k a i t o e = rw e

on_overflow-IsValid :
    (d : Disk) (k : Kernel) (a : Active)
    → IsSound a k.next_serial
    → IsValid k
    → IsValid (on_overflow d a (record k { active = some a }))
unfolding on_overflow
on_overflow-IsValid d k a s v = elim (Option-cases a.interrupt) [
  | inl e ↦
      let (rest, same) =
        save_output_rest (record k { active = some a }) d (strip_ansi a.output) (ground arith) in
      interrupt_first _ a _ true e (omega arith) s.1 s.2 rest
  | inr (i, e) ↦ rw (interrupt_again _ a i _ true e) (
      save_output-IsValid d (strip_ansi a.output)
        (IsSound-IsActive k a s (subst (λ x. IsCaptured x a.output) (sym e) tt) v))
]

on_output-IsValid : (d : Disk) (kind chunk : Text) (c f : Bool) → Keeps (on_output d kind chunk c f)
unfolding on_output
on_output-IsValid d kind chunk c f a k e v =
    let output = extend_output kind chunk c f a.output in
    let a1 = record a { output = output } in
    elim (Bool-cases (overflowed a)) [
      | inl o ↦ rw o v
      | inr o ↦ rw o (elim (Bool-cases (ltb output_capture_limit_bytes (byte_length output))) [
        | inl large ↦ rw large (on_overflow-IsValid d k a1 (ground arith) v)
        | inr small ↦
            rw small (reported-IsValid k a1 (ground arith) (fits a.interrupt output small) v)
      ])
    ]
  where
    fits :
        (i : Option Interrupt) (t : Text)
        → ltb output_capture_limit_bytes (byte_length t) ≡ false
        → IsCaptured i t
    fits none t h = ground arith
    fits (some i) t h = tt

    reported-IsValid :
        (k : Kernel) (a : Active)
        → IsSound a k.next_serial
        → IsCaptured a.interrupt a.output
        → IsValid k
        → IsValid (emit (reported a.serial a.output) (record k { active = some a }))
    reported-IsValid k a s c v = ground arith

on_message-IsValid :
    (d : Disk) (m : BridgeMessage) {k : Kernel}
    → is_some k.child ≡ true
    → IsValid k
    → IsValid (on_message d m k)
unfolding on_message
on_message-IsValid d (BridgeMessage.kernel_started n) c v = on_kernel_started-IsValid n v
on_message-IsValid d (BridgeMessage.ready p n f) c v = on_ready-IsValid p n f c v
on_message-IsValid d (BridgeMessage.fatal e t) c v = on_fatal-IsValid e t v
on_message-IsValid d (BridgeMessage.clear id) c v =
    for_active-IsValid id on_clear on_clear-IsValid v
on_message-IsValid d (BridgeMessage.image id png) c v =
    for_active-IsValid id (on_image png) (on_image-IsValid png) v
on_message-IsValid d (BridgeMessage.output id kind chunk cont final) c v =
    for_active-IsValid id (on_output d kind chunk cont final)
      (on_output-IsValid d kind chunk cont final) v
on_message-IsValid d (BridgeMessage.bridge_error none e t) c v = v
on_message-IsValid d (BridgeMessage.bridge_error (some id) e t) c v =
    for_active-IsValid id (on_bridge_error e t) (on_bridge_error-IsValid e t) v
on_message-IsValid d (BridgeMessage.result id s n x e) c v =
    for_active-IsValid id (on_result s n x e) (on_result-IsValid s n x e) v

on_line-IsValid :
    (d : Disk) (l : Line) {k : Kernel}
    → is_some k.child ≡ true
    → IsValid k
    → IsValid (on_line d l k)
unfolding on_line
on_line-IsValid d l c v = elim (Option-cases l.parsed) [
  | inl e ↦ rw e (on_invalid-IsValid none l.raw v)
  | inr (j, e) ↦ rw e (elim (Option-cases (as_bridge_message j)) [
    | inl f ↦ rw (f, on_line) (on_invalid-IsValid (invalid_message_reason j) l.raw v)
    | inr (m, f) ↦ rw (f, on_line) (on_message-IsValid d m c v)
  ])
]

-- Whatever the bridge writes, a valid runtime stays valid.
pub handle_line-IsValid :
    (d : Disk) (child : ℕ) (l : Line) {k : Kernel} → IsValid k → IsValid (handle_line d child l k)
unfolding handle_line
handle_line-IsValid d child l {k} v = elim (Bool-cases (is_child child k)) [
  | inr e ↦ rw e v
  | inl e ↦ rw e (on_line-IsValid d l (ground arith) v)
]
