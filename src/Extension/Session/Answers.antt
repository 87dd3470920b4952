-- ===== src/Extension/Session/Answers.antt =====
-- extensions/ipython.ts: what `execute` returns, and what becomes of the notices on each way out.
use pi_ipython.Common.{
  Text, text, Option, none, some, List, [], ◌∷◌, ◌++◌, if◌then◌else◌, join, ◌≡◌, ◌≢◌, ap, ◌⊎◌, refl,
  Option-cases, inl, inr,
}
use pi_ipython.Persistence.Settings.{Outcome-split, returns}
use pi_ipython.Cell.{reset_notice, Execution, CellReport, cell_result}
use pi_ipython.Extension.{Entry, on_kernel_lost, deliver}
use pi_ipython.Cell.Laws.{reported-IsReport}
use pi_ipython.Extension.Results.{result_text_lem}
use pi_ipython.Extension.Live.{Live}
use pi_ipython.Extension.Session.{
  Attempt, done, lost, failed, Services, Session, Said, Answer, get_runtime,
}
use pi_ipython.Extension.Session.Cells.{
  is_failed, Executed, answer, answer_of, end_cell, run_cell, execute_cell,
}

-- The notices of a cell's result.
abbrev pub notices_for : Execution → List Text → List Text
notices_for execution notices = if execution.kernel_reset then reset_notice ∷ notices else notices

pub Attempt-split {ℓ} :
    {A : Type ℓ} (a : Attempt A)
    → ((x : A) × (a ≡ done x)) ⊎ (((e : Text) × (a ≡ lost e)) ⊎ ((e : Text) × (a ≡ failed e)))
Attempt-split (done x) = inl (x, refl)
Attempt-split (lost e) = inr (inl (e, refl))
Attempt-split (failed e) = inr (inr (e, refl))

module _ {ℓ} {S : Type ℓ} (execution : Execution) (undelivered notices : List Text)
    (save : Text → S → Option (Text × S)) (s : S) where
  pub deliver-none :
      cell_result execution (undelivered ++ notices) save s ≡ none
      → deliver execution undelivered notices save s ≡ (none, undelivered)
  unfolding deliver
  deliver-none e = rw (e, deliver) refl

  pub deliver-some :
      (report : CellReport) (s1 : S)
      → cell_result execution (undelivered ++ notices) save s ≡ some (report, s1)
      → deliver execution undelivered notices save s ≡ (some (report, s1), [])
  unfolding deliver
  deliver-some report s1 e = rw (e, deliver) refl

-- The answer has these notices, and its text starts with them and ends with the output.
pub record IsAnswer (execution : Execution) (delivered : List Text) (a : Answer) : Type 0 where
  pub noticed : a.structured.notices ≡ notices_for execution delivered
  pub some_text : a.text ≢ []
  pub noted : (rest : Text) × (a.text ≡ join (text "\n\n") a.structured.notices ++ rest)
  pub shown : (front : Text) × (a.text ≡ front ++ a.structured.output)

answer_of-IsAnswer :
    (execution : Execution) (notices : List Text) (report : CellReport) (checkpoint : Option Text)
    → report.cell.notices ≡ notices_for execution notices
    → IsAnswer execution notices (answer_of execution report checkpoint)
unfolding answer_of
answer_of-IsAnswer execution notices report checkpoint h =
    let (some_text, shown, noted) =
      result_text_lem (join (text "\n\n") report.cell.notices) report.header report.cell.output
        (is_failed report.cell) execution.result.error in
    record { noticed = h; some_text = some_text; noted = noted; shown = shown }

module _ {ℓ κ} {R : Type ℓ} {S : Type κ} (api : Services R S) where
  -- What waits for the model is the same.
  pub record IsKept (s after : Session R S) : Type (ℓ ⊔ κ) where
    pub undelivered : after.undelivered ≡ s.undelivered
    pub forwarded : after.forwarded ≡ s.forwarded

  -- The reset notice waits for the result of the call, and the others still wait.
  pub record IsLost (call_id : Text) (s after : Session R S) : Type (ℓ ⊔ κ) where
    pub undelivered : after.undelivered ≡ s.undelivered
    pub forwarded : after.forwarded ≡ on_kernel_lost call_id s.forwarded

  pub get_runtime-IsKept : (s : Session R S) → IsKept s (get_runtime api s).1
  unfolding get_runtime
  get_runtime-IsKept s = elim (Option-cases s.current) [
    | inr (c, e) ↦ rw (e, get_runtime) (record { undelivered = refl; forwarded = refl })
    | inl e ↦ elim (Outcome-split (api.create s.services).0) [
      | inl (m, f) ↦ rw (e, f, get_runtime) (record { undelivered = refl; forwarded = refl })
      | inr (r, f) ↦ rw (e, f, get_runtime) (record { undelivered = refl; forwarded = refl })
    ]
  ]

  -- The cell ran, on a runtime.
  pub IsRun : Text → Text → List Entry → Session R S → List Text → Execution → Type (ℓ ⊔ κ)
  IsRun call_id code branch s notices execution =
      (r : R) × (s1 : Session R S) × (get_runtime api s ≡ (returns r, s1))
      × ((run_cell api r call_id code branch s1.services).end ≡ done (notices, execution))

  unfoldable pub IsAccounted :
      Text → Text → List Entry → Session R S → Attempt Answer → Session R S → Type (ℓ ⊔ κ)
  IsAccounted call_id code branch s (done a) after =
      (notices : List Text) × (execution : Execution) × IsRun call_id code branch s notices
        execution
      × IsAnswer execution (s.undelivered ++ notices) a
      × (after.undelivered ≡ [])
      × (after.forwarded ≡ s.forwarded)
  IsAccounted call_id code branch s (lost e) after = IsLost call_id s after
  IsAccounted call_id code branch s (failed e) after = IsKept s after

  answer-IsAccounted :
      (r : R) (notices : List Text) (execution : Execution) (seen : List Said) (live : Live)
      (call_id code : Text) (branch : List Entry) (before s : Session R S)
      → IsRun call_id code branch before notices execution
      → IsKept before s
      → let x : Executed R S = answer api r notices execution seen live s in
        IsAccounted call_id code branch before x.end x.session
  unfolding answer IsAccounted
  answer-IsAccounted r notices execution seen live call_id code branch before s ran kept =
      elim (Option-cases
        (cell_result execution (s.undelivered ++ notices) (api.save_output r) s.services)) [
          | inl e ↦
              rw
                (
                  deliver-none execution s.undelivered notices (api.save_output r) s.services e,
                  answer,
                )
                (record {
                  undelivered =
                      rw
                        (deliver-none execution s.undelivered notices (api.save_output r) s.services
                          e)
                        kept.undelivered;
                  forwarded = kept.forwarded;
                })
          | inr ((report, sv), e) ↦
              rw
                (
                  deliver-some execution s.undelivered notices (api.save_output r) s.services report
                      sv e,
                  answer,
                )
                (
                  notices,
                  execution,
                  ran,
                  rw kept.undelivered at (
                      answer_of-IsAnswer execution (s.undelivered ++ notices) report
                        (api.save r sv).0
                        (reported-IsReport execution (s.undelivered ++ notices) (api.save_output r)
                          s.services sv report e).notices),
                  rw
                      (deliver-some execution s.undelivered notices (api.save_output r) s.services
                        report sv e)
                      refl,
                  kept.forwarded,
                )
        ]

  end_cell-IsAccounted :
      (r : R) (call_id code : Text) (branch : List Entry) (s s1 : Session R S)
      → get_runtime api s ≡ (returns r, s1)
      → IsKept s s1
      → let x : Executed R S =
          end_cell api r call_id code (run_cell api r call_id code branch s1.services) s1 in
        IsAccounted call_id code branch s x.end x.session
  unfolding end_cell IsRun IsAccounted
  end_cell-IsAccounted r call_id code branch s s1 h kept =
      let ran = run_cell api r call_id code branch s1.services in
      elim (Attempt-split ran.end) [
        | inl ((notices, execution), e) ↦
            rw (e, end_cell)
              (answer-IsAccounted r notices execution _ _ call_id code branch s _ (r, s1, h, e)
                (record { undelivered = kept.undelivered; forwarded = kept.forwarded }))
        | inr (inl (m, e)) ↦
            rw (e, end_cell)
              (record {
                undelivered = kept.undelivered;
                forwarded = ap (on_kernel_lost call_id) kept.forwarded;
              })
        | inr (inr (m, e)) ↦
            rw (e, end_cell) (record { undelivered = kept.undelivered; forwarded = kept.forwarded })
      ]

  pub execute_cell-IsAccounted :
      (call_id code : Text) (branch : List Entry) (s : Session R S)
      → IsAccounted call_id code branch s
          (execute_cell api call_id code branch s).end
          (execute_cell api call_id code branch s).session
  unfolding execute_cell IsAccounted
  execute_cell-IsAccounted call_id code branch s =
      let kept = get_runtime-IsKept s in
      elim (Outcome-split (get_runtime api s).0) [
        | inl (m, e) ↦ rw (e, execute_cell) kept
        | inr (r, e) ↦
            rw (e, execute_cell)
              (end_cell-IsAccounted r call_id code branch s (get_runtime api s).1
                (ap (λ o. (o, (get_runtime api s).1)) e) kept)
      ]
