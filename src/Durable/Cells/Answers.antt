-- ===== src/Durable/Cells/Answers.antt =====
-- durable/index.ts: what a cell's result says.
use pi_ipython.Common.{
  Text, text, true, false, some, List, [], ◌∷◌, ◌++◌, map, if◌then◌else◌, ◌≡◌, ◌≢◌, ◌↔◌, Bool, ◌⊎◌,
}
use pi_ipython.Persistence.Settings.{returns}
use pi_ipython.Cell.{reset_notice, Execution}
use pi_ipython.Durable.Cells.{Services, Answer, Diagnostic, info}

-- What a result says of its truncation: nothing if the output is whole, and otherwise one remark of
-- that code, which is not empty.
pub IsTold : Bool → List Diagnostic → Type 0
IsTold truncated told =
    ((truncated ≡ false) × (told ≡ []))
    ⊎ ((truncated ≡ true)
        × (message : Text) × (message ≢ [])
        × (told ≡ record { code = some (text "output_truncated"); message = message } ∷ []))

-- The remarks: each notice, and whether the output was truncated.
pub record IsRemarked (notices : List Text) (a : Answer) : Type 0 where
  pub remark : List Diagnostic
  pub diagnostics : a.diagnostics ≡ map info notices ++ remark
  pub truncated : IsTold a.structured.truncated remark

pub record IsAnswer (execution : Execution) (notices : List Text) (a : Answer) : Type 0 where
  pub noticed :
      a.structured.notices ≡ (if execution.kernel_reset then reset_notice ∷ notices else notices)
  pub remarked : IsRemarked a.structured.notices a
  pub some_text : a.text ≢ []
  pub shown : a.structured.output ≢ [] → a.text ≡ a.structured.output
  pub ok : (a.is_error ≡ false) ↔ (execution.result.status ≡ text "ok")

module _ {ℓ κ} {R : Type ℓ} {S : Type κ} (api : Services R S) where
  -- The cell ran on this runtime: `sync` gave these notices for the conversation's checkpoints.
  pub record IsRun (r : R) (conversation call_id code cwd : Text) (s : S) (notices : List Text)
      (execution : Execution) : Type (ℓ ⊔ κ) where
    pub candidates : List Text
    pub found : (api.candidates conversation s).0 ≡ returns candidates
    pub synced : (api.sync r candidates cwd (api.candidates conversation s).1).0 ≡ returns notices
    pub executed :
        (api.execute r call_id code cwd
          (api.sync r candidates cwd (api.candidates conversation s).1).1).1.0
        ≡ returns execution
