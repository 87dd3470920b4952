-- ===== src/Kernel/Settlement/Ends.antt =====
-- The ends of the bridge and of the runtime keep a request in its place.
use pi_ipython.Common.{
  ℕ, ◌+◌, Text, Bool, true, false, Option, none, some, List, [], ◌∷◌, if◌then◌else◌, ◌≡◌, refl,
  arith, Bool-cases, Option-cases, inl, inr, sym, ap,
}
use pi_ipython.Kernel.State.{Effect, sigterm, sigkill, Kernel, emit, signal_group}
use pi_ipython.Kernel.Lines.{is_child}
use pi_ipython.Kernel.Lifecycle.{
  same_group, stdin_error, handle_exit, unexpected_exit, terminate_group, has_timer, kill_group,
  reject_lost, kill_groups, force_stop, reap_group, finish_terminate, terminated, shutdown,
  ask_to_stop, remove_directory, shutdown_finished,
}
use pi_ipython.Kernel.Settlement.{settled, awaiting, is_active, places, IsTracked}
use pi_ipython.Kernel.Settlement.Handlers.{
  reject_waiter-IsTracked, fail_active-IsTracked, signal_group-IsTracked, terminate-IsTracked,
  interrupt-IsTracked,
}

module _ (n : ℕ) where
  pub stdin_error-IsTracked :
      (k : Kernel) (c : ℕ) (t : Text) → IsTracked n k → IsTracked n (stdin_error c t k)
  unfolding stdin_error
  stdin_error-IsTracked k c t v = elim (Bool-cases (is_child c k)) [
    | inr e ↦ rw e v
    | inl e ↦ rw e (terminate-IsTracked n _ (fail_active-IsTracked n _ _ v))
  ]

  pub terminate_group-IsTracked :
      (k : Kernel) (g : Option ℕ) → IsTracked n k → IsTracked n (terminate_group g k)
  unfolding terminate_group
  terminate_group-IsTracked k none v = v
  terminate_group-IsTracked k (some pgid) v = signal_group-IsTracked n _ (some pgid) sigterm v

  pub kill_group-IsTracked :
      (k : Kernel) (pgid : ℕ) → IsTracked n k → IsTracked n (kill_group pgid k)
  unfolding kill_group
  kill_group-IsTracked k pgid v = elim (Bool-cases (has_timer pgid k.group_timers)) [
    | inr e ↦ rw e v
    | inl e ↦ rw e (signal_group-IsTracked n _ (some pgid) sigkill v)
  ]

  pub handle_exit-IsTracked :
      (k : Kernel) (c : ℕ) (t : Text) → IsTracked n k → IsTracked n (handle_exit c t k)
  unfolding handle_exit unexpected_exit
  handle_exit-IsTracked k c t v = elim (Bool-cases (is_child c k)) [
    | inr e ↦ rw e v
    | inl e ↦ rw e (elim (Bool-cases k.stopping) [
      | inl asked ↦ rw asked (reject_waiter-IsTracked n _ _ v)
      | inr unasked ↦ rw unasked (
          fail_active-IsTracked n _ _
            (terminate_group-IsTracked _ k.kernel_pgid (reject_waiter-IsTracked n _ _ v)))
    ])
  ]

  -- What waits for `terminate` is settled in the end.
  pub reject_lost-places :
      (ls : List (ℕ × Text)) (k : Kernel)
      → (places n (reject_lost ls k) ≡ awaiting n ls + places n k)
        × ((reject_lost ls k).next_serial ≡ k.next_serial)
  unfolding reject_lost awaiting settled
  reject_lost-places [] k = (omega arith, refl)
  reject_lost-places ((m, t) ∷ ls) k =
      let (p, q) = reject_lost-places ls (emit (Effect.rejected m t) k) in (omega arith, q)

  pub reap_group-IsTracked :
      (k : Kernel) (a b : Bool) (g : Option ℕ) → IsTracked n k → IsTracked n (reap_group a b g k)
  unfolding reap_group
  reap_group-IsTracked k false b g v = v
  reap_group-IsTracked k true true g v =
      signal_group-IsTracked n _ g sigkill (signal_group-IsTracked n k g sigterm v)
  reap_group-IsTracked k true false g v = signal_group-IsTracked n k g sigterm v

  pub reap_group-lost :
      (k : Kernel) (a b : Bool) (g : Option ℕ) → (reap_group a b g k).lost ≡ k.lost
  unfolding reap_group signal_group
  reap_group-lost k false b g = refl
  reap_group-lost k true true none = refl
  reap_group-lost k true true (some g) = refl
  reap_group-lost k true false none = refl
  reap_group-lost k true false (some g) = refl

  pub terminated-IsTracked :
      (k : Kernel) (a b : Bool) → IsTracked n k → IsTracked n (terminated a b k)
  unfolding terminated finish_terminate
  terminated-IsTracked k a b v = elim (Option-cases k.terminating) [
    | inl e ↦ rw (e, terminated) v
    | inr (g, e) ↦
        rw (e, terminated)
          (ended (reap_group a b g k) (same_group k.kernel_pgid g) k.kernel_pgid
            (reap_group-IsTracked k a b g v) (reap_group-lost k a b g))
  ]
    where
      ended :
          (r : Kernel) (s : Bool) (g : Option ℕ)
          → IsTracked n r
          → r.lost ≡ k.lost
          → IsTracked n (
              reject_lost k.lost
                (record r { kernel_pgid = if s then none else g; terminating = none; lost = [] }))
      ended r s g w e =
          unfold awaiting in
          ground (
            arith,
            reject_lost-places k.lost
                (record r { kernel_pgid = if s then none else g; terminating = none; lost = [] }),
          )

  pub shutdown-IsTracked : (k : Kernel) → IsTracked n k → IsTracked n (shutdown k)
  unfolding shutdown
  shutdown-IsTracked k v = elim (Option-cases k.active) [
    | inl e ↦ rw (e, shutdown) v
    | inr (a, e) ↦
        rw (e, shutdown)
          (interrupt-IsTracked n _ a a.cancel_reason false (ap (is_active n) (sym e)) v)
  ]

  pub ask_to_stop-IsTracked : (k : Kernel) → IsTracked n k → IsTracked n (ask_to_stop k)
  unfolding ask_to_stop settled
  ask_to_stop-IsTracked k v = ground arith

  pub shutdown_finished-IsTracked :
      (k : Kernel) (a b : Bool) → IsTracked n k → IsTracked n (shutdown_finished a b k)
  unfolding shutdown_finished
  shutdown_finished-IsTracked k a b v = elim (Option-cases k.closing) [
    | inl e ↦ rw (e, shutdown_finished) v
    | inr (g, e) ↦
        rw (e, shutdown_finished)
          (removed k.output_directory (reap_group a b g k) (reap_group-IsTracked k a b g v))
  ]
    where
      removed : (d : Option Text) (r : Kernel) → IsTracked n r → IsTracked n (remove_directory d r)
      removed none r w = unfold remove_directory in w
      removed (some d) r w = unfold remove_directory settled in ground arith

  pub force_stop-IsTracked :
      (k : Kernel) (child : ℕ) → IsTracked n k → IsTracked n (force_stop child k)
  unfolding force_stop kill_groups settled
  force_stop-IsTracked k child v = elim (Option-cases k.terminating) [
    | inl e ↦ rw (e, force_stop) v
    | inr (pgid, e) ↦
        let w = signal_group-IsTracked n k pgid sigkill v in rw (e, force_stop) (omega (arith, w))
  ]
