-- ===== src/Kernel/Invariant/Ends.antt =====
-- The ends of the bridge and of the runtime keep it valid.
use pi_ipython.Common.{
  All, List, [], ◌∷◌, ◌<◌, ℕ, Text, Bool, true, false, Option, none, some, List, [], ◌∷◌,
  if◌then◌else◌, ◌≡◌, arith, ◌==◌, Bool-cases, Option-cases, inl, inr, subst,
}
use pi_ipython.Kernel.State.{
  signalled_bridge, sigterm, sigkill, Kernel, emit, signal_group, note_loss,
}
use pi_ipython.Kernel.Lines.{is_child}
use pi_ipython.Kernel.Lifecycle.{
  same_group, stdin_error, handle_exit, unexpected_exit, terminate_group, has_timer, without_timer,
  kill_group, reject_lost, kill_groups, force_stop, reap_group, finish_terminate, terminated,
  shutdown, ask_to_stop, remove_directory, shutdown_finished,
}
use pi_ipython.Kernel.Invariant.{IsTimed, IsGroup, IsSeenGroup, IsActive, IsValid}
use pi_ipython.Kernel.Invariant.Effects.{
  reject_waiter-IsValid, fail_active-IsValid, signal_group-IsValid, terminate-IsValid,
  interrupt-IsValid,
}

pub stdin_error-IsValid : {k : Kernel} (c : ℕ) (t : Text) → IsValid k → IsValid (stdin_error c t k)
unfolding stdin_error
stdin_error-IsValid {k} c t v = elim (Bool-cases (is_child c k)) [
  | inr e ↦ rw e v
  | inl e ↦ rw e (terminate-IsValid (fail_active-IsValid _ (ground arith)))
]

pub terminate_group-IsValid :
    {k : Kernel} (pgid : Option ℕ) → IsGroup pgid → IsValid k → IsValid (terminate_group pgid k)
unfolding terminate_group signal_group
terminate_group-IsValid none g v = v
terminate_group-IsValid (some pgid) g v = ground arith

pub has_timer-IsTimed :
    (pgid : ℕ) (ps : List ℕ) → has_timer pgid ps ≡ true → All IsTimed ps → 1 < pgid
unfolding has_timer
has_timer-IsTimed pgid [] e v = ground arith
has_timer-IsTimed pgid (p ∷ ps) e v = elim (Bool-cases (p == pgid)) [
  | inl f ↦ ground arith
  | inr f ↦ has_timer-IsTimed pgid ps (ground arith) v.1
]

pub without_timer-IsTimed :
    (pgid : ℕ) (ps : List ℕ) → All IsTimed ps → All IsTimed (without_timer pgid ps)
unfolding without_timer
without_timer-IsTimed pgid [] v = v
without_timer-IsTimed pgid (p ∷ ps) v = elim (Bool-cases (p == pgid)) [
  | inl e ↦ rw e v.1
  | inr e ↦ rw e (v.0, without_timer-IsTimed pgid ps v.1)
]

pub kill_group-IsValid : {k : Kernel} (pgid : ℕ) → IsValid k → IsValid (kill_group pgid k)
unfolding kill_group signal_group
kill_group-IsValid {k} pgid v = elim (Bool-cases (has_timer pgid k.group_timers)) [
  | inr e ↦ rw e v
  | inl e ↦
      let timed = has_timer-IsTimed pgid k.group_timers e v.timers in
      let left = without_timer-IsTimed pgid k.group_timers v.timers in rw e (ground arith)
]

pub unexpected_exit-IsValid :
    {k : Kernel} (b : Bool) (pgid : Option ℕ) (r s : Text)
    → IsGroup pgid
    → IsValid k
    → IsValid (unexpected_exit b pgid r s k)
unfolding unexpected_exit
unexpected_exit-IsValid {k} b pgid r s g v =
    fail_active-IsValid _ (noted (terminate_group-IsValid pgid g v))
  where
    noted : {k : Kernel} → IsValid k → IsValid (note_loss b k)
    noted v = ground arith

pub handle_exit-IsValid : {k : Kernel} (c : ℕ) (t : Text) → IsValid k → IsValid (handle_exit c t k)
unfolding handle_exit
handle_exit-IsValid {k} c t v = elim (Bool-cases (is_child c k)) [
  | inr e ↦ rw e v
  | inl e ↦ rw e (elim (Bool-cases k.stopping) [
    | inl asked ↦ rw asked (reject_waiter-IsValid _ (ground arith))
    | inr unasked ↦
        rw unasked
          (unexpected_exit-IsValid _ _ _ _ v.group (reject_waiter-IsValid _ (ground arith)))
  ])
]

pub reject_lost-IsValid : {k : Kernel} (l : List (ℕ × Text)) → IsValid k → IsValid (reject_lost l k)
unfolding reject_lost
reject_lost-IsValid [] v = v
reject_lost-IsValid ((n, t) ∷ l) v = reject_lost-IsValid l (ground arith)

pub reap_group-IsValid :
    {k : Kernel} (a b : Bool) (pgid : Option ℕ)
    → IsGroup pgid
    → IsValid k
    → IsValid (reap_group a b pgid k)
unfolding reap_group
reap_group-IsValid false b pgid g v = v
reap_group-IsValid true true pgid g v =
    signal_group-IsValid pgid sigkill g (signal_group-IsValid pgid sigterm g v)
reap_group-IsValid true false pgid g v = signal_group-IsValid pgid sigterm g v

pub finish_terminate-IsValid :
    {k : Kernel} (a b : Bool) (pgid : Option ℕ)
    → IsGroup pgid
    → IsValid k
    → IsValid (finish_terminate a b pgid k)
unfolding finish_terminate
finish_terminate-IsValid {k} a b pgid g v =
    reject_lost-IsValid k.lost (settled (reap_group-IsValid a b pgid g v))
  where
    settled :
        {r : Kernel}
        → IsValid r
        → IsValid (record r {
          kernel_pgid = if same_group k.kernel_pgid pgid then none else k.kernel_pgid;
          terminating = none;
          lost = [];
        })
    settled w = ground (arith, v.group)

pub terminated-IsValid : {k : Kernel} (a b : Bool) → IsValid k → IsValid (terminated a b k)
unfolding terminated
terminated-IsValid {k} a b v = elim (Option-cases k.terminating) [
  | inl e ↦ rw (e, terminated) v
  | inr (pgid, e) ↦
      rw (e, terminated)
        (finish_terminate-IsValid a b pgid (subst IsSeenGroup e v.stopping_group) v)
]

pub shutdown-IsValid : {k : Kernel} → IsValid k → IsValid (shutdown k)
unfolding shutdown
shutdown-IsValid {k} v = elim (Option-cases k.active) [
  | inl e ↦ rw (e, shutdown) (ground arith)
  | inr (a, e) ↦
      rw (e, shutdown)
        (interrupt-IsValid a a.cancel_reason false
          (subst (λ x. IsActive x k.next_serial) e v.request) (ground arith))
]

pub ask_to_stop-IsValid : {k : Kernel} → IsValid k → IsValid (ask_to_stop k)
unfolding ask_to_stop
ask_to_stop-IsValid v = ground arith

pub remove_directory-IsValid :
    {k : Kernel} (d : Option Text) → IsValid k → IsValid (remove_directory d k)
unfolding remove_directory
remove_directory-IsValid none v = v
remove_directory-IsValid (some d) v = ground arith

pub shutdown_finished-IsValid :
    {k : Kernel} (a b : Bool) → IsValid k → IsValid (shutdown_finished a b k)
unfolding shutdown_finished
shutdown_finished-IsValid {k} a b v = elim (Option-cases k.closing) [
  | inl e ↦ rw (e, shutdown_finished) v
  | inr (pgid, e) ↦
      rw (e, shutdown_finished)
        (remove_directory-IsValid k.output_directory
          (reap_group-IsValid a b pgid (subst IsSeenGroup e v.closing_group) v))
]

pub force_stop-IsValid : {k : Kernel} (child : ℕ) → IsValid k → IsValid (force_stop child k)
unfolding force_stop kill_groups
force_stop-IsValid {k} child v = elim (Option-cases k.terminating) [
  | inl e ↦ rw (e, force_stop) v
  | inr (pgid, e) ↦
      rw (e, force_stop)
        (killed (signal_group-IsValid pgid sigkill (subst IsSeenGroup e v.stopping_group) v))
]
  where
    killed : {r : Kernel} → IsValid r → IsValid (emit (signalled_bridge child sigkill) r)
    killed w = ground arith
