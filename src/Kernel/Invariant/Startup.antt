-- ===== src/Kernel/Invariant/Startup.antt =====
-- The messages of a kernel that starts or fails keep a runtime valid.
use pi_ipython.Common.{
  ℕ, ◌<◌, Text, Bool, true, Option, none, some, is_some, ◌≡◌, arith, Bool-cases, Option-cases, inl,
  inr, subst,
}
use pi_ipython.Protocol.{
  Number, is_version, invalid_group, unsupported_version, invalid_connection_file, safe, unsafe,
  pos, negsuc,
}
use pi_ipython.Kernel.State.{Kernel, add_stderr, note_loss}
use pi_ipython.Kernel.Lines.{
  as_group, is_absolute, on_invalid, on_kernel_started, on_ready, on_fatal, refuse, become_ready,
  changed_group, is_other_group,
}
use pi_ipython.Kernel.Invariant.{IsGroup, IsValid}
use pi_ipython.Kernel.Invariant.Effects.{
  reject_waiter-IsValid, resolve_waiter-IsValid, fail_active-IsValid, terminate-IsValid,
}

pub note_loss-IsValid : {k : Kernel} (b : Bool) → IsValid k → IsValid (note_loss b k)
note_loss-IsValid b v = ground arith

pub add_stderr-IsValid : {k : Kernel} (t : Text) → IsValid k → IsValid (add_stderr t k)
add_stderr-IsValid t v = ground arith

pub on_invalid-IsValid :
    {k : Kernel} (r : Option Text) (t : Text) → IsValid k → IsValid (on_invalid r t k)
unfolding on_invalid
on_invalid-IsValid none t v = add_stderr-IsValid _ v
on_invalid-IsValid (some r) t v =
    terminate-IsValid (note_loss-IsValid _ (fail_active-IsValid _ (reject_waiter-IsValid r v)))

pub as_group-IsGroup : (n : Number) → IsGroup (as_group n)
unfolding as_group
as_group-IsGroup (safe (pos n)) = ground arith
as_group-IsGroup (safe (negsuc n)) = tt
as_group-IsGroup (unsafe n) = tt

pub refuse-IsValid : {k : Kernel} (t : Text) → IsValid k → IsValid (refuse t k)
refuse-IsValid t v = terminate-IsValid (reject_waiter-IsValid t v)

pub on_kernel_started-IsValid :
    {k : Kernel} (n : Number) → IsValid k → IsValid (on_kernel_started n k)
unfolding on_kernel_started
on_kernel_started-IsValid {k} n v =
    ground (arith, as_group-IsGroup n, refuse-IsValid invalid_group v)

pub become_ready-IsValid :
    {k : Kernel} (pgid : ℕ) (file : Text)
    → is_some k.child ≡ true
    → 1 < pgid
    → is_absolute file ≡ true
    → IsValid k
    → IsValid (become_ready pgid file k)
become_ready-IsValid pgid file c g f v = resolve_waiter-IsValid (ground arith)

pub on_ready-IsValid :
    {k : Kernel} (protocol pgid : Number) (file : Text)
    → is_some k.child ≡ true
    → IsValid k
    → IsValid (on_ready protocol pgid file k)
unfolding on_ready
on_ready-IsValid {k} protocol n file c v = elim (Bool-cases (is_version protocol)) [
  | inr e ↦ rw e (refuse-IsValid unsupported_version v)
  | inl e ↦ rw e (elim (Option-cases (as_group n)) [
    | inl f ↦ rw f (refuse-IsValid invalid_group v)
    | inr (pgid, f) ↦ rw f (elim (Bool-cases (is_other_group k.kernel_pgid pgid)) [
      | inl g ↦ rw g (refuse-IsValid changed_group v)
      | inr g ↦ rw g (elim (Bool-cases (is_absolute file)) [
        | inr h ↦ rw h (refuse-IsValid invalid_connection_file v)
        | inl h ↦ rw h (become_ready-IsValid pgid file c (subst IsGroup f (as_group-IsGroup n)) h v)
      ])
    ])
  ])
]

pub on_fatal-IsValid : {k : Kernel} (e t : Text) → IsValid k → IsValid (on_fatal e t k)
unfolding on_fatal
on_fatal-IsValid e t v =
    terminate-IsValid (note_loss-IsValid _ (fail_active-IsValid _ (reject_waiter-IsValid _ v)))
