-- ===== src/Extension/Session/Held.antt =====
-- extensions/ipython.ts: a cell leaves a session with at most one kernel.
pub mod Toggles
pub mod Ends
use pi_ipython.Common.{
  ℕ, suc, some_second, ◌-◌, Text, Option, none, some, List, [], ◌∷◌, ◌++◌, ◌≡◌, refl, ap, sym, ◌∙◌,
  Bool, true, false, ◌<◌, ◌==◌, All, is_some, subst, arith, Bool-cases, Option-cases, inl, inr,
}
use pi_ipython.Persistence.Settings.{Outcome-split, returns, throws}
use pi_ipython.Output.Ansi.{strip_ansi}
use pi_ipython.Output.Truncation.{truncate_tail}
use pi_ipython.Output.Report.{FinalOutput, final_output}
use pi_ipython.Cell.{CellReport, Execution, cell_result}
use pi_ipython.Extension.{Entry, checkpoint_ids}
use pi_ipython.Extension.Live.{Live}
use pi_ipython.Extension.Session.{Services, Running, Session, Said, get_runtime}
use pi_ipython.Extension.Session.Cells.{Ran, answer, end_cell, run_cell, execute_cell}
use pi_ipython.Extension.Session.Answers.{Attempt-split, deliver-none, deliver-some}

-- `made` counts the runtimes that were made and not closed.
pub record IsCount {ℓ κ} {R : Type ℓ} {S : Type κ} (api : Services R S) (made : S → ℕ)
    : Type (ℓ ⊔ κ) where
  pub created :
      (s : S) (r : R) → (api.create s).0 ≡ returns r → made (api.create s).1 ≡ suc (made s)
  pub refused : (s : S) (m : Text) → (api.create s).0 ≡ throws m → made (api.create s).1 ≡ made s
  pub closed : (r : R) (s : S) → made (api.close r s).1 ≡ made s - 1
  pub synced : (r : R) (ids : List Text) (s : S) → made (api.sync r ids s).1.1 ≡ made s
  pub executed : (r : R) (id code : Text) (s : S) → made (api.execute r id code s).1.1 ≡ made s
  pub connected : (r : R) (s : S) → made (api.connect r s).1.1 ≡ made s
  pub saved : (r : R) (s : S) → made (api.save r s).1 ≡ made s
  pub saved_output :
      (r : R) (t path : Text) (s s1 : S)
      → api.save_output r t s ≡ some (path, s1)
      → made s1 ≡ made s
  pub toggled : (file : Text) (s : S) → made (api.toggle file s).1 ≡ made s
  pub stopped : (r : R) (s : S) → made (api.stop r s) ≡ made s
  pub shut : (s : S) → made (api.shutdown s).1 ≡ made s

-- The listeners of a session: that of its kernel, unless SIGTERM came and took it off.
abbrev pub own {ℓ} : {R : Type ℓ} → Bool → Option (Running R) → List ℕ
own signalled none = []
own true (some c) = []
own false (some c) = c.sigterm ∷ []

-- The kernel's listener is none of the others.
abbrev pub IsApart {ℓ} : {R : Type ℓ} → Option (Running R) → List ℕ → Type 0
IsApart none outside = Unit
IsApart (some c) outside = All (λ i. (i == c.sigterm) ≡ false) outside

All-apart :
    (id : ℕ) (outside : List ℕ) → All (λ i. i < id) outside → All (λ i. (i == id) ≡ false) outside
All-apart id [] h = tt
All-apart id (i ∷ rest) (h, hs) = (ground arith, All-apart id rest hs)

All-older : (id : ℕ) (outside : List ℕ) → All (λ i. i < id) outside → All (λ i. i < suc id) outside
All-older id [] h = tt
All-older id (i ∷ rest) (h, hs) = (omega arith, All-older id rest hs)

abbrev pub count {ℓ} : {R : Type ℓ} → Option (Running R) → ℕ
count none = 0
count (some c) = 1

module _ {ℓ κ} {R : Type ℓ} {S : Type κ} (api : Services R S) where
  module _ (made : S → ℕ) (c : IsCount api made) (outside : List ℕ) (signalled : Bool) where
    -- The process listens to SIGTERM for the session's kernel, unless it came for that kernel, and for
    -- others, and there is no other kernel of the session.
    pub record IsHeld (s : Session R S) : Type (ℓ ⊔ κ) where
      pub listening : s.listeners ≡ own signalled s.current ++ outside
      pub held : signalled ≡ true → is_some s.current ≡ true
      pub apart : IsApart s.current outside
      pub older : All (λ i. i < s.next_listener) outside
      pub counted : made s.services ≡ count s.current

    -- A new kernel's listener is in front.
    added :
        (s : Session R S) (r : R)
        → IsHeld s
        → s.current ≡ none
        → s.next_listener ∷ s.listeners
          ≡ own signalled (some (record { runtime = r; sigterm = s.next_listener })) ++ outside
    added s r v e = elim (Bool-cases signalled) [
      | inl b ↦ cc (v.held b, e)
      | inr b ↦ rw b (ap (λ t. s.next_listener ∷ t) (rw e at v.listening))
    ]

    pub get_runtime-IsHeld : (s : Session R S) → IsHeld s → IsHeld (get_runtime api s).1
    unfolding get_runtime
    get_runtime-IsHeld s v = elim (Option-cases s.current) [
      | inr (r, e) ↦ rw (e, get_runtime) v
      | inl e ↦ elim (Outcome-split (api.create s.services).0) [
        | inl (m, f) ↦
            rw (e, f, get_runtime)
              (record {
                listening = v.listening;
                held = v.held;
                apart = v.apart;
                older = v.older;
                counted = c.refused s.services m f ∙ v.counted;
              })
        | inr (r, f) ↦
            rw (e, f, get_runtime)
              (record {
                listening = added s r v e;
                held = λ h. refl;
                apart = All-apart s.next_listener outside v.older;
                older = All-older s.next_listener outside v.older;
                counted = c.created s.services r f ∙ ap suc (rw e at v.counted);
              })
      ]
    ]

    -- The session has the same kernel, and the count is the same.
    pub keep :
        (s after : Session R S)
        → IsHeld s
        → after.current ≡ s.current
        → after.listeners ≡ s.listeners
        → after.next_listener ≡ s.next_listener
        → made after.services ≡ made s.services
        → IsHeld after
    keep s after v e f n g = record {
      listening = f ∙ (v.listening ∙ ap (λ r. own signalled r ++ outside) (sym e));
      held = λ h. ap is_some e ∙ v.held h;
      apart = subst (λ r. IsApart r outside) (sym e) v.apart;
      older = subst (λ k. All (λ i. i < k) outside) (sym n) v.older;
      counted = g ∙ (v.counted ∙ ap count (sym e));
    }

    run_cell-made :
        (r : R) (call_id code : Text) (branch : List Entry) (sv : S)
        → made (run_cell api r call_id code branch sv).services ≡ made sv
    unfolding run_cell
    run_cell-made r call_id code branch sv =
        let ids = checkpoint_ids branch in
        let one = c.synced r ids sv in
        elim (Attempt-split (api.sync r ids sv).1.0) [
          | inl (notices, e) ↦
              rw (e, run_cell) (c.executed r call_id code (api.sync r ids sv).1.1 ∙ one)
          | inr (inl (m, e)) ↦ rw (e, run_cell) one
          | inr (inr (m, e)) ↦ rw (e, run_cell) one
        ]

    final_output-made :
        (r : R) (t : Text) (sv sv1 : S) (final : FinalOutput)
        → final_output t (api.save_output r) sv ≡ some (final, sv1)
        → made sv1 ≡ made sv
    unfolding final_output
    final_output-made r t sv sv1 final h =
        let clean = strip_ansi t in
        elim (Bool-cases (truncate_tail clean).truncated) [
          | inr e ↦ ap made (sym (some_second (rw (e, final_output) at h)))
          | inl e ↦ elim (Option-cases (api.save_output r clean sv)) [
            | inl f ↦ cc (rw (f, e, final_output) at h)
            | inr ((path, sv2), f) ↦
                ap made (sym (some_second (rw (f, e, final_output) at h)))
                ∙ c.saved_output r clean path sv sv2 f
          ]
        ]

    cell_result-made :
        (r : R) (execution : Execution) (notices : List Text) (sv sv1 : S) (report : CellReport)
        → cell_result execution notices (api.save_output r) sv ≡ some (report, sv1)
        → made sv1 ≡ made sv
    unfolding cell_result
    cell_result-made r execution notices sv sv1 report h =
        elim (Option-cases (final_output execution.result.output (api.save_output r) sv)) [
          | inl f ↦ cc (rw (f, cell_result) at h)
          | inr ((final, sv2), f) ↦
              ap made (sym (some_second (rw (f, cell_result) at h)))
              ∙ final_output-made r execution.result.output sv sv2 final f
        ]

    answer-IsHeld :
        (r : R) (notices : List Text) (execution : Execution) (seen : List Said) (live : Live)
        (s : Session R S)
        → IsHeld s
        → IsHeld (answer api r notices execution seen live s).session
    unfolding answer
    answer-IsHeld r notices execution seen live s v =
        let given = s.undelivered ++ notices in
        elim (Option-cases (cell_result execution given (api.save_output r) s.services)) [
          | inl f ↦
              rw
                (
                  deliver-none execution s.undelivered notices (api.save_output r) s.services f,
                  answer,
                )
                (keep s _ v refl refl refl refl)
          | inr ((report, sv), f) ↦
              rw
                (
                  deliver-some execution s.undelivered notices (api.save_output r) s.services report
                      sv f,
                  answer,
                )
                (keep s _ v refl refl refl
                  (c.saved r sv ∙ cell_result-made r execution given s.services sv report f))
        ]

    end_cell-IsHeld :
        (r : R) (call_id code : Text) (ran : Ran (List Text × Execution) S) (s : Session R S)
        → IsHeld s
        → made ran.services ≡ made s.services
        → IsHeld (end_cell api r call_id code ran s).session
    unfolding end_cell
    end_cell-IsHeld r call_id code ran s v m = elim (Attempt-split ran.end) [
      | inl ((notices, execution), e) ↦
          rw (e, end_cell) (answer-IsHeld r notices execution _ _ _ (keep s _ v refl refl refl m))
      | inr (inl (t, e)) ↦ rw (e, end_cell) (keep s _ v refl refl refl m)
      | inr (inr (t, e)) ↦ rw (e, end_cell) (keep s _ v refl refl refl m)
    ]

    pub execute_cell-IsHeld :
        (call_id code : Text) (branch : List Entry) (s : Session R S)
        → IsHeld s
        → IsHeld (execute_cell api call_id code branch s).session
    unfolding execute_cell
    execute_cell-IsHeld call_id code branch s v =
        let w = get_runtime-IsHeld s v in
        elim (Outcome-split (get_runtime api s).0) [
          | inl (m, e) ↦ rw (e, execute_cell) w
          | inr (r, e) ↦
              rw (e, execute_cell)
                (end_cell-IsHeld r call_id code _ (get_runtime api s).1 w
                  (run_cell-made r call_id code branch (get_runtime api s).1.services))
        ]
