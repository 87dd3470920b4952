-- ===== src/Extension/Session/Shutdown.antt =====
-- extensions/ipython.ts: a session has at most one kernel, and none at its end.
use pi_ipython.Common.{
  subst, Bool, false, ◌<◌, All, is_some, if◌then◌else◌, ℕ, Text, true, none, some, List, [], ◌∷◌,
  ◌++◌, ◌≡◌, refl, ap, sym, ◌∙◌, arith, Bool-cases, Option-cases, inl, inr,
}
use pi_ipython.Extension.{Entry, ToolResult, on_tool_result}
use pi_ipython.Extension.Session.{Services, Running, Session}
use pi_ipython.Extension.Session.Cells.{execute_cell}
use pi_ipython.Extension.Session.Console.{off, every_is, on_sigterm, toggle_cells, session_shutdown}
use pi_ipython.Extension.Session.Held.{IsCount, own, IsApart, count, IsHeld, execute_cell-IsHeld}
use pi_ipython.Extension.Session.Held.Toggles.{toggle_cells-IsHeld}
use pi_ipython.Extension.Session.Held.Ends.{
  listens, off_first, off-apart, listens-apart, current-IsApart, session_shutdown-ends,
}

-- What happens to a session.
pub data Action : Type 0 where
  executes : Text → Text → List Entry → Action
  toggles : List Entry → Action
  results : ToolResult → Action
  ends : Action
  terminates : Action

module _ {ℓ κ} {R : Type ℓ} {S : Type κ} (api : Services R S) where
  -- SIGTERM comes: Node calls the listener of the session's kernel, if that was not called before.
  unfoldable pub deliver_sigterm : Session R S → Session R S
  deliver_sigterm s = elim s.current [
    | none ↦ s
    | some r ↦ if listens r.sigterm s.listeners then (on_sigterm api r s).1 else s
  ]

  unfoldable pub act : Action → Session R S → Session R S
  act (executes call_id code branch) s = (execute_cell api call_id code branch s).session
  act (toggles branch) s = (toggle_cells api branch s).1
  act (results e) s = record s { forwarded = (on_tool_result e s.forwarded).forwarded }
  act ends s = (session_shutdown api s).1
  act terminates s = deliver_sigterm s

  unfoldable pub run_actions : List Action → Session R S → Session R S
  run_actions [] s = s
  run_actions (a ∷ rest) s = run_actions rest (act a s)

  -- Has SIGTERM come since the session's kernel was made?
  unfoldable pub is_signalled : Bool → Action → Session R S → Bool
  is_signalled before (executes call_id code branch) s = before
  is_signalled before (toggles branch) s = before
  is_signalled before (results e) s = before
  is_signalled before ends s = false
  is_signalled before terminates s = is_some s.current

  unfoldable pub was_signalled : Bool → List Action → Session R S → Bool
  was_signalled before [] s = before
  was_signalled before (a ∷ rest) s = was_signalled (is_signalled before a s) rest (act a s)

  module _ (made : S → ℕ) (c : IsCount api made) (outside : List ℕ) where
    -- On SIGTERM, the process goes on to exit when only the session listens.
    on_sigterm-alone :
        (r : Running R) (s : Session R S)
        → IsHeld api made c outside false s
        → s.current ≡ some r
        → outside ≡ []
        → ((on_sigterm api r s).0 ≡ true) × ((on_sigterm api r s).1.listeners ≡ [])
    unfolding on_sigterm off every_is
    on_sigterm-alone r s v e o =
        let l : s.listeners ≡ r.sigterm ∷ [] = (rw e at v.listening) ∙ ap (λ t. r.sigterm ∷ t) o in
        rw (l, on_sigterm) (ground arith)

    -- The listener takes itself off, and no other.
    on_sigterm-listeners :
        (r : Running R) (s : Session R S)
        → s.listeners ≡ r.sigterm ∷ outside
        → IsApart (some r) outside
        → (on_sigterm api r s).1.listeners ≡ outside
    unfolding on_sigterm
    on_sigterm-listeners r s l apart =
        let others : off r.sigterm s.listeners ≡ outside =
          ap (off r.sigterm) l ∙ off_first api made c outside false r.sigterm outside in
        let left = off-apart api made c outside false r.sigterm outside apart in
        elim (Bool-cases (every_is r.sigterm outside)) [
          | inl b ↦ rw (others, on_sigterm) (rw b left)
          | inr b ↦ rw (others, on_sigterm) (rw b refl)
        ]

    on_sigterm-IsHeld :
        (r : Running R) (s : Session R S)
        → IsHeld api made c outside false s
        → s.current ≡ some r
        → IsHeld api made c outside true (on_sigterm api r s).1
    unfolding on_sigterm
    on_sigterm-IsHeld r s v e = record {
      listening =
          on_sigterm-listeners r s (rw e at v.listening)
            (current-IsApart api made c outside false r s v e)
          ∙ ap (λ k. own true k ++ outside) (sym e);
      held = λ h. ap is_some e;
      apart = v.apart;
      older = v.older;
      counted = c.stopped r.runtime s.services ∙ v.counted;
    }

    deliver_sigterm-none : (s : Session R S) → s.current ≡ none → deliver_sigterm s ≡ s
    unfolding deliver_sigterm
    deliver_sigterm-none s e = rw e refl

    deliver_sigterm-some :
        (r : Running R) (s : Session R S)
        → s.current ≡ some r
        → deliver_sigterm s ≡ (if listens r.sigterm s.listeners then (on_sigterm api r s).1 else s)
    unfolding deliver_sigterm
    deliver_sigterm-some r s e = rw e refl

    -- A listener that was called is not called again.
    deliver_sigterm-again :
        (r : Running R) (s : Session R S)
        → IsHeld api made c outside true s
        → s.current ≡ some r
        → deliver_sigterm s ≡ s
    deliver_sigterm-again r s v e =
        let l : s.listeners ≡ outside = rw e at v.listening in
        let unheard =
          ap (listens r.sigterm) l
          ∙ listens-apart api made c outside true r.sigterm outside
              (current-IsApart api made c outside true r s v e) in
        deliver_sigterm-some r s e ∙ ap (λ b. if b then (on_sigterm api r s).1 else s) unheard

    deliver_sigterm-first :
        (r : Running R) (s : Session R S)
        → IsHeld api made c outside false s
        → s.current ≡ some r
        → deliver_sigterm s ≡ (on_sigterm api r s).1
    unfolding listens
    deliver_sigterm-first r s v e =
        let l : s.listeners ≡ r.sigterm ∷ outside = rw e at v.listening in
        let heard : listens r.sigterm s.listeners ≡ true = rw l (ground arith) in
        deliver_sigterm-some r s e ∙ ap (λ b. if b then (on_sigterm api r s).1 else s) heard

    deliver_sigterm-IsHeld :
        (signalled : Bool) (s : Session R S)
        → IsHeld api made c outside signalled s
        → IsHeld api made c outside (is_some s.current) (deliver_sigterm s)
    deliver_sigterm-IsHeld false s v = elim (Option-cases s.current) [
      | inl e ↦
          subst (IsHeld api made c outside (is_some s.current)) (sym (deliver_sigterm-none s e))
            (subst (λ b. IsHeld api made c outside b s) (sym (ap is_some e)) v)
      | inr (r, e) ↦
          subst (IsHeld api made c outside (is_some s.current))
            (sym (deliver_sigterm-first r s v e))
            (subst (λ b. IsHeld api made c outside b (on_sigterm api r s).1) (sym (ap is_some e))
              (on_sigterm-IsHeld r s v e))
    ]
    deliver_sigterm-IsHeld true s v = elim (Option-cases s.current) [
      | inl e ↦ cc (v.held refl, e)
      | inr (r, e) ↦
          subst (IsHeld api made c outside (is_some s.current))
            (sym (deliver_sigterm-again r s v e))
            (subst (λ b. IsHeld api made c outside b s) (sym (ap is_some e)) v)
    ]

    act-IsHeld :
        (signalled : Bool) (a : Action) (s : Session R S)
        → IsHeld api made c outside signalled s
        → IsHeld api made c outside (is_signalled signalled a s) (act a s)
    unfolding act is_signalled
    act-IsHeld signalled (executes call_id code branch) s v =
        execute_cell-IsHeld api made c outside signalled call_id code branch s v
    act-IsHeld signalled (toggles branch) s v =
        toggle_cells-IsHeld api made c outside signalled branch s v
    act-IsHeld signalled (results e) s v = record {
      listening = v.listening;
      held = v.held;
      apart = v.apart;
      older = v.older;
      counted = v.counted;
    }
    act-IsHeld signalled ends s v = (session_shutdown-ends api made c outside signalled s v).1
    act-IsHeld signalled terminates s v = deliver_sigterm-IsHeld signalled s v

    run_actions-IsHeld :
        (signalled : Bool) (rest : List Action) (s : Session R S)
        → IsHeld api made c outside signalled s
        → IsHeld api made c outside (was_signalled signalled rest s) (run_actions rest s)
    unfolding run_actions was_signalled
    run_actions-IsHeld signalled [] s v = v
    run_actions-IsHeld signalled (a ∷ rest) s v =
        run_actions-IsHeld (is_signalled signalled a s) rest (act a s) (act-IsHeld signalled a s v)

    -- Whatever happens to a session, SIGTERM included, it has at most one kernel that was made and not
    -- closed, which is the current one, and the process listens to SIGTERM for that one only, and no
    -- more once SIGTERM has come, next to the listeners that were there; so when the session ends, no
    -- kernel and no listener of it is left. The listeners that were there are older than the session's.
    pub run_actions-session_shutdown :
        (rest : List Action) (s : Session R S)
        → s.current ≡ none
        → s.listeners ≡ outside
        → All (λ i. i < s.next_listener) outside
        → made s.services ≡ 0
        → IsHeld api made c outside (was_signalled false rest s) (run_actions rest s)
          × ((session_shutdown api (run_actions rest s)).1.listeners ≡ outside)
          × (made (session_shutdown api (run_actions rest s)).1.services ≡ 0)
    run_actions-session_shutdown rest s e l older m =
        let f = was_signalled false rest s in
        let v = run_actions-IsHeld false rest s (record {
          listening = l ∙ ap (λ r. own false r ++ outside) (sym e);
          held = λ h. cc;
          apart = subst (λ r. IsApart r outside) (sym e) tt;
          older = older;
          counted = m ∙ ap count (sym e);
        }) in
        let (gone, w) = session_shutdown-ends api made c outside f (run_actions rest s) v in
        (v, w.listening ∙ ap (λ r. own false r ++ outside) gone, w.counted ∙ ap count gone)
