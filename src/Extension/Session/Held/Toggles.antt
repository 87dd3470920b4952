-- ===== src/Extension/Session/Held/Toggles.antt =====
-- extensions/ipython.ts: a toggle of the console leaves a session with at most one kernel.
use pi_ipython.Common.{
  subst, Bool, if◌then◌else◌, ℕ, List, [], ◌∷◌, refl, sym, ◌∙◌, Bool-cases, inl, inr,
}
use pi_ipython.Persistence.Settings.{Outcome, returns, throws, Outcome-split}
use pi_ipython.Extension.{Entry, checkpoint_ids}
use pi_ipython.Extension.Session.{Services, Session, get_runtime}
use pi_ipython.Extension.Session.Console.{
  open_console, toggle_on, warning, need_console, sync_console, toggle_cells, Notification,
}
use pi_ipython.Extension.Session.Answers.{Attempt-split}
use pi_ipython.Extension.Session.Held.{IsCount, IsHeld, keep, get_runtime-IsHeld}

module _ {ℓ κ} {R : Type ℓ} {S : Type κ} (api : Services R S) where
  module _ (made : S → ℕ) (c : IsCount api made) (outside : List ℕ) (signalled : Bool) where
    open_console-IsHeld :
        (r : R) (seen : List Notification) (s : Session R S)
        → IsHeld api made c outside signalled s
        → IsHeld api made c outside signalled (open_console api r seen s).1
    unfolding open_console
    open_console-IsHeld r seen s v =
        let sv = (api.connect r s.services).1.1 in
        let one = c.connected r s.services in
        elim (Outcome-split (api.connect r s.services).1.0) [
          | inl (m, e) ↦
              rw (e, open_console) (keep api made c outside signalled s _ v refl refl refl one)
          | inr (file, e) ↦ elim (Outcome-split (api.toggle file sv).0) [
            | inl (m, f) ↦
                rw (e, f, open_console)
                  (keep api made c outside signalled s _ v refl refl refl (c.toggled file sv ∙ one))
            | inr (u, f) ↦
                rw (e, f, open_console)
                  (keep api made c outside signalled s _ v refl refl refl (c.toggled file sv ∙ one))
          ]
        ]

    sync_console-IsHeld :
        (branch : List Entry) (r : R) (s : Session R S)
        → IsHeld api made c outside signalled s
        → IsHeld api made c outside signalled (sync_console api branch r s).1
    unfolding sync_console
    sync_console-IsHeld branch r s v =
        let ids = checkpoint_ids branch in
        let one = c.synced r ids s.services in
        elim (Attempt-split (api.sync r ids s.services).1.0) [
          | inl (notices, e) ↦
              rw (e, sync_console)
                (open_console-IsHeld r _ _
                  (keep api made c outside signalled s _ v refl refl refl one))
          | inr (inl (m, e)) ↦
              rw (e, sync_console) (keep api made c outside signalled s _ v refl refl refl one)
          | inr (inr (m, e)) ↦
              rw (e, sync_console) (keep api made c outside signalled s _ v refl refl refl one)
        ]

    toggle_on-IsHeld :
        (branch : List Entry) (o : Outcome R) (s : Session R S)
        → IsHeld api made c outside signalled s
        → IsHeld api made c outside signalled (toggle_on api branch o s).1
    unfolding toggle_on
    toggle_on-IsHeld branch (throws m) s v = v
    toggle_on-IsHeld branch (returns r) s v = sync_console-IsHeld branch r s v

    pub toggle_cells-IsHeld :
        (branch : List Entry) (s : Session R S)
        → IsHeld api made c outside signalled s
        → IsHeld api made c outside signalled (toggle_cells api branch s).1
    unfolding toggle_cells
    toggle_cells-IsHeld branch s v = elim (Bool-cases api.interactive) [
      | inr i ↦ rw i v
      | inl i ↦
          let w = get_runtime-IsHeld api made c outside signalled s v in
          subst
            (λ b.
              IsHeld api made c outside signalled
                (if b
                  then toggle_on api branch (get_runtime api s).0 (get_runtime api s).1
                  else (warning need_console ∷ [], s)).1)
            (sym i) (toggle_on-IsHeld branch (get_runtime api s).0 (get_runtime api s).1 w)
    ]
