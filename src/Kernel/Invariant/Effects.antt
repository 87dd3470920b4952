-- ===== src/Kernel/Invariant/Effects.antt =====
-- The shared methods keep a runtime valid.
use pi_ipython.Common.{ℕ, Text, Bool, Option, none, some, arith}
use pi_ipython.Kernel.State.{
  Active, Signal, Kernel, fresh, Disk, write_output, save_output, reject_waiter, resolve_waiter,
  fail_active, signal_group, terminate, interrupt,
}
use pi_ipython.Kernel.Invariant.{IsGroup, IsActive, IsValid}

pub fresh-IsValid : IsValid fresh
unfolding fresh
fresh-IsValid = ground arith

pub reject_waiter-IsValid : {k : Kernel} (t : Text) → IsValid k → IsValid (reject_waiter t k)
unfolding reject_waiter
reject_waiter-IsValid t v = ground arith

pub resolve_waiter-IsValid : {k : Kernel} → IsValid k → IsValid (resolve_waiter k)
unfolding resolve_waiter
resolve_waiter-IsValid v = ground arith

pub fail_active-IsValid : {k : Kernel} (t : Text) → IsValid k → IsValid (fail_active t k)
unfolding fail_active
fail_active-IsValid t v = ground arith

pub signal_group-IsValid :
    {k : Kernel} (pgid : Option ℕ) (s : Signal)
    → IsGroup pgid
    → IsValid k
    → IsValid (signal_group pgid s k)
unfolding signal_group
signal_group-IsValid none s h v = v
signal_group-IsValid (some pgid) s h v = ground arith

pub terminate-IsValid : {k : Kernel} → IsValid k → IsValid (terminate k)
unfolding terminate signal_group
terminate-IsValid v = ground arith

pub interrupt-IsValid :
    {k : Kernel} (a : Active) (t : Text) (o : Bool)
    → IsActive (some a) k.next_serial
    → IsValid k
    → IsValid (interrupt a t o k)
unfolding interrupt signal_group
interrupt-IsValid a t o h v = ground arith

pub save_output-IsValid :
    {k : Kernel} (d : Disk) (t : Text) → IsValid k → IsValid (save_output d t k).1
unfolding save_output write_output
save_output-IsValid d t v = ground arith
