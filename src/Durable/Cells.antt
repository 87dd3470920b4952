-- ===== src/Durable/Cells.antt =====
-- durable/index.ts: the tool's `execute`. The kernel, its checkpoints and the host are an interface.
pub mod Answers
pub mod Brackets
use pi_ipython.Common.{
  ℕ, Text, text, Bool, true, false, Option, none, some, List, [], ◌∷◌, ◌++◌, map, is_some,
  if◌then◌else◌,
}
use pi_ipython.Persistence.Settings.{Outcome, returns, throws}
use pi_ipython.Cell.{Status, Execution, FigurePart, CellResult, CellReport, cell_result}
use pi_ipython.Durable.{Host, lookup, runtime_of, closing_down, live_pieces, cell_text}

-- What `execute` uses, in the state `S`: `api.agent`, with the directory that it gives; `createRuntime`
-- in that directory; `api.commit` of `checkpointIds` and of `appendEntry`; `checkpoints.sync` and
-- `save`; `kernel.execute`, with its outputs so far each time that it prints, and `saveOutput`.
pub record Services {ℓ κ} (R : Type ℓ) (S : Type κ) : Type (ℓ ⊔ κ) where
  pub agent : Text → S → Outcome Text × S
  pub create : Text → S → Outcome R × S
  pub candidates : Text → S → Outcome (List Text) × S
  pub sync : R → List Text → Text → S → Outcome (List Text) × S
  pub execute : R → Text → Text → Text → S → List Text × (Outcome Execution × S)
  pub save : R → S → Option Text × S
  pub append : Text → Text → S → Outcome (Unit {0}) × S
  pub save_output : R → Text → S → Option (Text × S)
  pub save_error : Text

-- A diagnostic of severity "info".
pub record Diagnostic : Type 0 where
  pub code : Option Text
  pub message : Text

pub record Answer : Type 0 where
  pub text : Text
  pub figures : List FigurePart
  pub structured : CellResult
  pub kernel_reset : Bool
  pub diagnostics : List Diagnostic
  pub is_error : Bool

-- "ipython:cell-start" and "ipython:cell-end", with the conversation.
pub data Event : Type 0 where
  cell_start cell_end : Text → Event

-- What the cell sends with `api.output`, and its end.
pub record Ran {ℓ} (S : Type ℓ) : Type ℓ where
  pub outputs : List Text
  pub end : Outcome Answer
  pub services : S

pub record Executed {ℓ κ} (R : Type ℓ) (S : Type κ) : Type (ℓ ⊔ κ) where
  pub events : List Event
  pub outputs : List Text
  pub end : Outcome Answer
  pub host : Host R
  pub services : S

abbrev pub is_failed : CellResult → Bool
is_failed r = elim r.status [ Status.ok ↦ false | Status.error ↦ true ]

abbrev pub info : Text → Diagnostic
info message = record { code = none; message = message }

-- `if (header) diagnostics.push(…)`.
abbrev pub truncation : Option Text → List Diagnostic
truncation none = []
truncation (some []) = []
truncation (some (c ∷ t)) = record { code = some (text "output_truncated"); message = c ∷ t } ∷ []

unfoldable pub answer_of : Execution → CellReport → Answer
answer_of execution report =
    let cell = report.cell in
    record {
      text = cell_text cell.output (is_failed cell) execution.result.error;
      figures = report.figures;
      structured = cell;
      kernel_reset = execution.kernel_reset;
      diagnostics = map info cell.notices ++ truncation report.header;
      is_error = is_failed cell;
    }

module _ {ℓ κ} {R : Type ℓ} {S : Type κ} (api : Services R S) where
  -- The checkpoint is on the conversation before the result is made.
  unfoldable pub commit_checkpoint : Text → Option Text → S → Outcome (Unit {0}) × S
  commit_checkpoint conversation none s = (returns tt, s)
  commit_checkpoint conversation (some id) s = api.append conversation id s

  unfoldable pub finish : R → Text → List Text → Execution → S → Outcome Answer × S
  finish r conversation notices execution s =
      let (checkpoint, s1) = api.save r s in
      let (committed, s2) = commit_checkpoint conversation checkpoint s1 in
      elim committed [
        | throws e ↦ (throws e, s2)
        | returns _ ↦ elim (cell_result execution notices (api.save_output r) s2) [
          | none ↦ (throws api.save_error, s2)
          | some (report, s3) ↦ (returns (answer_of execution report), s3)
        ]
      ]

  unfoldable pub run_cell : R → Text → Text → Text → Text → List Text → S → Ran S
  run_cell r conversation call_id code cwd notices s =
      let (printed, (ran, s1)) = api.execute r call_id code cwd s in
      let finished : Outcome Answer × S = elim ran [
        | throws e ↦ (throws e, s1)
        | returns execution ↦ finish r conversation notices execution s1
      ] in
      record { outputs = live_pieces [] printed; end = finished.0; services = finished.1 }

  unfoldable pub fail : Text → S → Ran S
  fail e s = record { outputs = []; end = throws e; services = s }

  -- `execute` once there is a runtime.
  unfoldable pub run_on : R → Text → Text → Text → Text → S → Ran S
  run_on r conversation call_id code cwd s =
      let (found, s1) = api.candidates conversation s in
      elim found [
        | throws e ↦ fail e s1
        | returns candidates ↦
            let (synced, s2) = api.sync r candidates cwd s1 in
            elim synced [
              | throws e ↦ fail e s2
              | returns notices ↦ run_cell r conversation call_id code cwd notices s2
            ]
      ]

  -- `runtimes.get(key)`, or a new runtime.
  unfoldable pub runtime_for : Text → Text → Host R → S → Outcome R × (Host R × S)
  runtime_for key cwd h s =
      let made : Outcome R × S = elim (lookup key h.runtimes) [
        | some r ↦ (returns r, s)
        | none ↦ api.create cwd s
      ] in
      elim made.0 [
        | throws e ↦ (throws e, (h, made.1))
        | returns r ↦ ((runtime_of key r h).0, ((runtime_of key r h).1, made.1))
      ]

  -- The `try` of `execute` and its `finally`.
  unfoldable pub bracket : Text → Text → Text → Text → Host R → S → Executed R S
  bracket conversation call_id code cwd h s =
      let (found, (h1, s1)) = runtime_for conversation cwd h s in
      let ran : Ran S = elim found [
        | throws e ↦ fail e s1
        | returns r ↦ run_on r conversation call_id code cwd s1
      ] in
      record {
        events = cell_start conversation ∷ cell_end conversation ∷ [];
        outputs = ran.outputs;
        end = ran.end;
        host = h1;
        services = ran.services;
      }

  unfoldable pub refuse : Text → Host R → S → Executed R S
  refuse e h s = record { events = []; outputs = []; end = throws e; host = h; services = s }

  -- `execute`.
  unfoldable pub execute_cell : Text → Text → Text → Host R → S → Executed R S
  execute_cell conversation call_id code h s =
      let (agent, s1) = api.agent conversation s in
      elim agent [
        | throws e ↦ refuse e h s1
        | returns cwd ↦
            if is_some h.closing
            then refuse closing_down h s1
            else bracket conversation call_id code cwd h s1
      ]
