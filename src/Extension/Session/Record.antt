-- ===== src/Extension/Session/Record.antt =====
-- extensions/ipython.ts: `execute` tells the transcript of one cell.
use pi_ipython.Common.{
  Text, text, join, text_eq, not, ◌&&◌, Bool, true, false, Option, none, List, [], ◌∷◌, ◌++◌, All,
  All-append, ◌≡◌, ◌⊎◌, refl, ap, sym, ◌∙◌, append_assoc, Option-cases, inl, inr, some,
}
use pi_ipython.Persistence.Settings.{returns}
use pi_ipython.Protocol.{Number, BridgeError}
use pi_ipython.Cell.{Execution, CellReport, cell_result}
use pi_ipython.Extension.{Entry}
use pi_ipython.Extension.Live.{Report, progressed, printed, timer_over}
use pi_ipython.Extension.Session.{
  done, lost, failed, Services, Session, Said, begin, output, note, finish, said_of, get_runtime,
}
use pi_ipython.Extension.Session.Cells.{
  Executed, count_text, is_empty, failure_of, note_of, result_said, answer, end_cell, run_cell,
  execute_cell, told,
}
use pi_ipython.Extension.Session.Answers.{Attempt-split, deliver-none, deliver-some}

-- Something within a cell.
abbrev pub IsWithin : Said → Type 0
IsWithin (begin t) = ⊥
IsWithin (output t) = Unit
IsWithin (note t) = Unit
IsWithin (finish t) = ⊥

-- A cell is begun and finished, with nothing but its output and notes in between.
pub IsOneCell : List Said → Type 0
IsOneCell said =
    (code : Text) × (within : List Said) × (status : Text) × (said
      ≡ begin code ∷ (within ++ finish status ∷ []))
    × All IsWithin within

said_of-IsWithin : (rs : List Report) → All IsWithin (said_of rs)
unfolding said_of
said_of-IsWithin [] = tt
said_of-IsWithin (progressed now message ∷ rs) = (tt, said_of-IsWithin rs)
said_of-IsWithin (printed now t ∷ rs) = (tt, said_of-IsWithin rs)
said_of-IsWithin (timer_over id now ∷ rs) = said_of-IsWithin rs

result_said-IsWithin :
    (shown : Number → Text) (execution : Execution) (notice : Text)
    → (within : List Said) × (status : Text) × (result_said shown execution notice
        ≡ within ++ finish status ∷ [])
      × All IsWithin within
unfolding result_said
result_said-IsWithin shown execution notice =
    let result = execution.result in
    let silent = not (text_eq result.status (text "ok")) && is_empty result.output in
    (
      output result.output ∷ (note_of notice ++ failure_of silent result.error),
      result.status ++ count_text shown result.execution_count,
      ap (λ t. output result.output ∷ t)
          (sym (append_assoc (note_of notice) (failure_of silent result.error) _)),
      (tt, All-append IsWithin (note_of notice) _ (noted notice) (failing silent result.error)),
    )
  where
    noted : (notice : Text) → All IsWithin (note_of notice)
    noted [] = tt
    noted (c ∷ t) = (tt, tt)

    failing : (silent : Bool) (e : Option BridgeError) → All IsWithin (failure_of silent e)
    failing true e = (tt, tt)
    failing false e = tt

module _ {ℓ κ} {R : Type ℓ} {S : Type κ} (api : Services R S) where
  -- The cell has run, and its output cannot be saved.
  pub IsUnsaved : R → Text → Text → List Entry → Session R S → Type κ
  IsUnsaved r call_id code branch s =
      (notices : List Text) × (execution : Execution) × ((run_cell api r call_id code branch
          s.services).end
        ≡ done (notices, execution))
      × (cell_result execution (s.undelivered ++ notices) (api.save_output r)
            (run_cell api r call_id code branch s.services).services
          ≡ none)

  -- The cell is begun, fails, and is not finished.
  pub record IsOpen (code : Text) (x : Executed R S) : Type (ℓ ⊔ κ) where
    pub failing : x.end ≡ failed api.save_error
    pub begun : (within : List Said) × (x.said ≡ begin code ∷ within) × All IsWithin within

  one_cell :
      (code : Text) (rs : List Report) (m : Text)
      → api.interactive ≡ true
      → IsOneCell (told api ((begin code ∷ said_of rs) ++ finish m ∷ []))
  unfolding told IsOneCell
  one_cell code rs m i = rw i (code, said_of rs, m, refl, said_of-IsWithin rs)

  one_result :
      (code : Text) (rs : List Report) (execution : Execution) (notice : Text)
      → api.interactive ≡ true
      → IsOneCell (told api ((begin code ∷ said_of rs) ++ result_said api.shown execution notice))
  unfolding told IsOneCell
  one_result code rs execution notice i =
      let (within, status, e, w) = result_said-IsWithin api.shown execution notice in
      rw i (
        code,
        said_of rs ++ within,
        status,
        ap (λ t. (begin code ∷ said_of rs) ++ t) e
            ∙ ap (λ t. begin code ∷ t)
                (sym (append_assoc (said_of rs) within (finish status ∷ []))),
        All-append IsWithin (said_of rs) within (said_of-IsWithin rs) w,
      )

  unsaved :
      (r : R) (call_id code : Text) (branch : List Entry) (s : Session R S) (notices : List Text)
      (execution : Execution)
      → (run_cell api r call_id code branch s.services).end ≡ done (notices, execution)
      → cell_result execution
          (s.undelivered ++ notices)
          (api.save_output r)
          (run_cell api r call_id code branch s.services).services
        ≡ none
      → IsUnsaved r call_id code branch s
  unfolding IsUnsaved
  unsaved r call_id code branch s notices execution e f = (notices, execution, e, f)

  thrown :
      (r : R) (call_id code : Text) (branch : List Entry) (s : Session R S) (m : Text)
      → ((run_cell api r call_id code branch s.services).end ≡ lost m)
        ⊎ ((run_cell api r call_id code branch s.services).end ≡ failed m)
      → ¬ IsUnsaved r call_id code branch s
  unfolding IsUnsaved
  thrown r call_id code branch s m (inl e) (n, x, e1, g) = cc
  thrown r call_id code branch s m (inr e) (n, x, e1, g) = cc

  saved :
      (r : R) (call_id code : Text) (branch : List Entry) (s : Session R S) (notices : List Text)
      (execution : Execution) (report : CellReport) (sv : S)
      → (run_cell api r call_id code branch s.services).end ≡ done (notices, execution)
      → cell_result execution
          (s.undelivered ++ notices)
          (api.save_output r)
          (run_cell api r call_id code branch s.services).services
        ≡ some (report, sv)
      → ¬ IsUnsaved r call_id code branch s
  unfolding IsUnsaved
  saved r call_id code branch s notices execution report sv e f (n, x, e1, g) = cc

  end_cell-IsRecorded :
      (r : R) (call_id code : Text) (branch : List Entry) (s : Session R S)
      → api.interactive ≡ true
      → let x : Executed R S =
          end_cell api r call_id code (run_cell api r call_id code branch s.services) s in
        ((¬ IsUnsaved r call_id code branch s) × IsOneCell x.said)
        ⊎ (IsUnsaved r call_id code branch s × IsOpen code x)
  unfolding end_cell answer told IsOneCell
  end_cell-IsRecorded r call_id code branch s i =
      let ran = run_cell api r call_id code branch s.services in
      elim (Attempt-split ran.end) [
        | inr (inl (m, e)) ↦
            rw (e, end_cell)
              (inl (
                thrown r call_id code branch s m (inl e),
                one_cell code ran.reports (text "error: " ++ m) i,
              ))
        | inr (inr (m, e)) ↦
            rw (e, end_cell)
              (inl (
                thrown r call_id code branch s m (inr e),
                one_cell code ran.reports (text "error: " ++ m) i,
              ))
        | inl ((notices, execution), e) ↦
            elim (Option-cases
              (cell_result execution (s.undelivered ++ notices) (api.save_output r) ran.services)) [
                | inl f ↦
                    rw
                      (
                        e,
                        end_cell,
                        deliver-none execution s.undelivered notices (api.save_output r)
                            ran.services f,
                        answer,
                      )
                      (inr (
                        unsaved r call_id code branch s notices execution e f,
                        record {
                          failing = refl;
                          begun = (said_of ran.reports, rw i refl, said_of-IsWithin ran.reports);
                        },
                      ))
                | inr ((report, sv), f) ↦
                    rw
                      (
                        e,
                        end_cell,
                        deliver-some execution s.undelivered notices (api.save_output r)
                            ran.services report sv f,
                        answer,
                      )
                      (inl (
                        saved r call_id code branch s notices execution report sv e f,
                        one_result code ran.reports execution
                            (join (text "\n\n") report.cell.notices) i,
                      ))
              ]
      ]

  -- When the console is available and the runtime can be made, `execute` records one cell. If the
  -- cell ran and its output cannot be saved, `execute` fails with that error and the cell is begun
  -- and never finished; in every other case, whether it runs, fails or loses the kernel, the cell is
  -- begun and finished, with nothing but its output and notes in between.
  pub execute_cell-IsRecorded :
      (call_id code : Text) (branch : List Entry) (s : Session R S) (r : R)
      → api.interactive ≡ true
      → (get_runtime api s).0 ≡ returns r
      → let x : Executed R S = execute_cell api call_id code branch s in
        ((¬ IsUnsaved r call_id code branch (get_runtime api s).1) × IsOneCell x.said)
        ⊎ (IsUnsaved r call_id code branch (get_runtime api s).1 × IsOpen code x)
  unfolding execute_cell
  execute_cell-IsRecorded call_id code branch s r i e =
      rw (e, execute_cell) (end_cell-IsRecorded r call_id code branch (get_runtime api s).1 i)
