-- ===== src/Extension/Session/Cells.antt =====
-- extensions/ipython.ts: the tool's `execute`.
use pi_ipython.Common.{
  Text, text, text_eq, Bool, true, false, not, ◌&&◌, Option, none, some, List, [], ◌∷◌, ◌++◌,
  if◌then◌else◌, join,
}
use pi_ipython.Protocol.{Number, BridgeError, describe_error}
use pi_ipython.Persistence.Settings.{returns, throws}
use pi_ipython.Cell.{Status, Execution, CellResult, CellReport}
use pi_ipython.Extension.{Entry, checkpoint_ids, on_kernel_lost, deliver, result_text}
use pi_ipython.Extension.Live.{Live, new_live, cleared, Report, on_reports}
use pi_ipython.Extension.Session.{
  Attempt, done, lost, failed, Services, Session, Said, begin, output, note, finish, Answer,
  said_of, get_runtime,
}

-- How a cell runs: what it reports, and its end.
pub record Ran {ℓ κ} (A : Type ℓ) (S : Type κ) : Type (ℓ ⊔ κ) where
  pub reports : List Report
  pub end : Attempt A
  pub services : S

-- What `execute` leaves: its end, the live updates, what the transcript was told, and the session.
pub record Executed {ℓ κ} (R : Type ℓ) (S : Type κ) : Type (ℓ ⊔ κ) where
  pub end : Attempt Answer
  pub live : Live
  pub said : List Said
  pub session : Session R S

-- The `finally` of `execute`.
unfoldable pub stop_updates : Live → Live
stop_updates l = record l { pending = cleared l.timer l.pending }

abbrev pub failure_of : Bool → Option BridgeError → List Said
failure_of true e = note (describe_error e) ∷ []
failure_of false e = []

abbrev pub is_empty : Text → Bool
is_empty [] = true
is_empty (c ∷ t) = false

abbrev pub note_of : Text → List Said
note_of [] = []
note_of (c ∷ t) = note (c ∷ t) ∷ []

abbrev pub is_failed : CellResult → Bool
is_failed r = elim r.status [ Status.ok ↦ false | Status.error ↦ true ]

abbrev pub with_notices : List Text → Attempt Execution → Attempt (List Text × Execution)
with_notices notices (done execution) = done (notices, execution)
with_notices notices (lost e) = lost e
with_notices notices (failed e) = failed e

abbrev pub count_text : (Number → Text) → Option Number → Text
count_text shown none = []
count_text shown (some n) = text " | In [" ++ (shown n ++ text "]")

-- What the transcript is told of a cell that ran.
unfoldable pub result_said : (Number → Text) → Execution → Text → List Said
result_said shown execution notice =
    let result = execution.result in
    output result.output
    ∷ (note_of notice
        ++ (failure_of (not (text_eq result.status (text "ok")) && is_empty result.output)
              result.error
            ++ finish (result.status ++ count_text shown result.execution_count) ∷ []))

unfoldable pub answer_of : Execution → CellReport → Option Text → Answer
answer_of execution report checkpoint =
    let cell = report.cell in
    record {
      text =
          result_text (join (text "\n\n") cell.notices) report.header cell.output (is_failed cell)
            execution.result.error;
      figures = report.figures;
      details = record {
        execution_count = cell.execution_count;
        kernel_reset = execution.kernel_reset;
        truncated = cell.truncated;
        full_output_path = cell.full_output_path;
        checkpoint = checkpoint;
      };
      structured = cell;
      is_error = is_failed cell;
    }

module _ {ℓ κ} {R : Type ℓ} {S : Type κ} (api : Services R S) where
  -- The `try` of `execute`.
  unfoldable pub run_cell : R → Text → Text → List Entry → S → Ran (List Text × Execution) S
  run_cell r call_id code branch sv =
      let (syncing, (synced, sv1)) = api.sync r (checkpoint_ids branch) sv in
      let (executing, (ran, sv2)) = api.execute r call_id code sv1 in
      elim synced [
        | done notices ↦ record {
          reports = syncing ++ executing;
          end = with_notices notices ran;
          services = sv2;
        }
        | lost e ↦ record { reports = syncing; end = lost e; services = sv1 }
        | failed e ↦ record { reports = syncing; end = failed e; services = sv1 }
      ]

  -- What the transcript is told, if there is one.
  unfoldable pub told : List Said → List Said
  told said = if api.interactive then said else []

  -- The cell's result; `seen` is what the transcript was told of it.
  unfoldable pub answer : R → List Text → Execution → List Said → Live → Session R S → Executed R S
  answer r notices execution seen live s =
      let (delivered, left) =
        deliver execution s.undelivered notices (api.save_output r) s.services in
      elim delivered [
        | none ↦ record {
          end = failed api.save_error;
          live = live;
          said = told seen;
          session = record s { undelivered = left };
        }
        | some (report, sv) ↦
            let (checkpoint, sv1) = api.save r sv in
            record {
              end = done (answer_of execution report checkpoint);
              live = live;
              said = told (
                  seen ++ result_said api.shown execution (join (text "\n\n") report.cell.notices));
              session = record s { undelivered = left; services = sv1 };
            }
      ]

  -- `execute` after `transcript?.begin(params.code)`.
  unfoldable pub end_cell :
      R → Text → Text → Ran (List Text × Execution) S → Session R S → Executed R S
  end_cell r call_id code ran s =
      let seen = begin code ∷ said_of ran.reports in
      let live = stop_updates (on_reports ran.reports new_live) in
      let s1 = record s { services = ran.services } in
      elim ran.end [
        | done (notices, execution) ↦ answer r notices execution seen live s1
        | lost e ↦ record {
          end = lost e;
          live = live;
          said = told (seen ++ finish (text "error: " ++ e) ∷ []);
          session = record s1 { forwarded = on_kernel_lost call_id s1.forwarded };
        }
        | failed e ↦ record {
          end = failed e;
          live = live;
          said = told (seen ++ finish (text "error: " ++ e) ∷ []);
          session = s1;
        }
      ]

  -- `execute`.
  unfoldable pub execute_cell : Text → Text → List Entry → Session R S → Executed R S
  execute_cell call_id code branch s =
      let (created, s1) = get_runtime api s in
      elim created [
        | throws e ↦ record { end = failed e; live = new_live; said = []; session = s1 }
        | returns r ↦ end_cell r call_id code (run_cell r call_id code branch s1.services) s1
      ]
