-- ===== src/Cells/Console/Shutdown.antt =====
-- extensions/cells.ts: the end of the view.
use pi_ipython.Common.{
  Bool, false, Option, none, some, [], is_some, ◌≡◌, refl, ap, arith, Option-cases, inl, inr,
}
use pi_ipython.Persistence.Settings.{Outcome, returns}
use pi_ipython.Cells.Console.{Outside, Console, Action, close_pane}
use pi_ipython.Cells.Console.Launch.{close_pane-none}

-- What only `shutdown` does to the outside: it disposes the view and aborts its operations, and removes
-- its directory, if it has one.
pub record Ending {ℓ} (S : Type ℓ) : Type ℓ where
  pub dispose : S → S
  pub remove_directory : S → S

-- The rest of a toggle that is under way.
unfoldable pub await_toggle {ℓ} :
    {S : Type ℓ} → Option (Action S (Unit {0})) → Console S → Console S
await_toggle none c = c
await_toggle (some toggling) c = (toggling c).1

-- `shutdown`. `toggling` is the promise of a toggle, if one is under way; its failure is ignored.
unfoldable pub shutdown {ℓ} :
    {S : Type ℓ} → Outside S → Ending S → Option (Action S (Unit {0})) → Action S (Unit {0})
shutdown o ending toggling c =
    let (closed, c1) =
      close_pane o (await_toggle toggling (record c { outside = ending.dispose c.outside })) in
    (closed, record c1 { outside = ending.remove_directory c1.outside })

module _ {ℓ} {S : Type ℓ} (o : Outside S) (ending : Ending S) (has_directory : S → Bool)
    (removed : (s : S) → has_directory (ending.remove_directory s) ≡ false) where
  close_pane-IsGone : (c c1 : Console S) → close_pane o c ≡ (returns tt, c1) → c1.pane_id ≡ none
  unfolding close_pane
  close_pane-IsGone c c1 h = elim (Option-cases c.pane_id) [
    | inl e ↦ ground arith
    | inr (id, e) ↦ (close_pane-none o [] [] [] c c1 h (ap is_some e)).0
  ]

  -- However a toggle that is under way ends, and whether or not Herdr closes the pane, the view's
  -- directory is removed, with the history and the connection file in it; `shutdown` fails exactly if
  -- the pane cannot be closed, and when it does not fail, no pane is left.
  pub shutdown-IsGone :
      (toggling : Option (Action S (Unit {0}))) (c : Console S)
      → let x : Outcome (Unit {0}) × Console S = shutdown o ending toggling c in
        (has_directory x.1.outside ≡ false)
        × (x.0
            ≡ (close_pane o
                (await_toggle toggling (record c { outside = ending.dispose c.outside }))).0)
        × (x.0 ≡ returns tt → x.1.pane_id ≡ none)
  unfolding shutdown
  shutdown-IsGone toggling c =
      let waited = await_toggle toggling (record c { outside = ending.dispose c.outside }) in
      let closed = close_pane o waited in
      (
        removed closed.1.outside,
        refl,
        λ e. close_pane-IsGone waited closed.1 (ap (λ r. (r, closed.1)) e),
      )
