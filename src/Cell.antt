-- ===== src/Cell.antt =====
-- core/cell.ts: the result of a cell that ran, as data.
pub mod Laws
mod Tests
use pi_ipython.Common.{
  ℕ, ◌+◌, Text, text, text_eq, Bool, true, false, Option, none, some, List, [], ◌∷◌, ◌++◌, map, ltb,
  ◌==◌, if◌then◌else◌, join, decimal, concat,
}
use pi_ipython.Protocol.{Number, BridgeError, BridgeResult, ErrorValue}
use pi_ipython.Output.Report.{FinalOutput, final_output, format_size}
use pi_ipython.Kernel.State.{image_limit, image_limit_bytes}

pub reset_notice : Text
reset_notice = join (10 ∷ []) (
    text "<ipython_kernel_reset>"
    ∷ text
        "The IPython kernel stopped. All in-memory variables, imports, tasks, and open resources from the previous kernel were lost; recreate them before continuing."
    ∷ text "</ipython_kernel_reset>"
    ∷ [])

pub data Status : Type 0 where
  ok error : Status

pub record CellResult : Type 0 where
  pub status : Status
  pub output : Text
  pub truncated : Bool
  pub notices : List Text
  pub execution_count : Option Number
  pub error : Option ErrorValue
  pub full_output_path : Option Text

pub data FigurePart : Type 0 where
  image : Text → FigurePart
  note : Text → FigurePart

pub record CellReport : Type 0 where
  pub cell : CellResult
  pub header : Option Text
  pub figures : List FigurePart

pub record Execution : Type 0 where
  pub result : BridgeResult
  pub kernel_reset : Bool

unfoldable pub status_of : Text → Status
status_of s = if text_eq s (text "ok") then Status.ok else Status.error

abbrev pub or_default : Option Text → Text → Text
or_default none d = d
or_default (some t) d = t

-- `{ ename: result.error?.ename ?? "Error", evalue: result.error?.evalue ?? "" }`.
unfoldable pub error_value : Option BridgeError → ErrorValue
error_value none = record { ename = text "Error"; evalue = [] }
error_value (some e) = record {
  ename = or_default e.ename (text "Error");
  evalue = or_default e.evalue [];
}

abbrev pub error_for : Status → Option BridgeError → Option ErrorValue
error_for Status.ok e = none
error_for Status.error e = some (error_value e)

unfoldable pub dropped_note : ℕ → Text
dropped_note dropped = concat (
    decimal dropped
    ∷ text " "
    ∷ (if dropped == 1 then text "figure" else text "figures")
    ∷ text " not sent: the limit is "
    ∷ decimal image_limit
    ∷ text " figures and "
    ∷ format_size image_limit_bytes
    ∷ text " per cell."
    ∷ [])

unfoldable pub figures_of : BridgeResult → List FigurePart
figures_of result =
    map image result.images
    ++ (if ltb 0 result.images_dropped then note (dropped_note result.images_dropped) ∷ [] else [])

unfoldable pub report_of : Execution → List Text → FinalOutput → CellReport
report_of execution notices final = record {
  cell = record {
    status = status_of execution.result.status;
    output = final.output;
    truncated = final.truncated;
    notices = if execution.kernel_reset then reset_notice ∷ notices else notices;
    execution_count = execution.result.execution_count;
    error = error_for (status_of execution.result.status) execution.result.error;
    full_output_path = final.full_output_path;
  };
  header = final.header;
  figures = figures_of execution.result;
}

-- `cellResult`, which throws where `save` does.
unfoldable pub cell_result {ℓ} :
    {S : Type ℓ}
    → Execution
    → List Text
    → (Text → S → Option (Text × S))
    → S
    → Option (CellReport × S)
cell_result execution notices save s = elim (final_output execution.result.output save s) [
  | none ↦ none
  | some (final, s') ↦ some (report_of execution notices final, s')
]
