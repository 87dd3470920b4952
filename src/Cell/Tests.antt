-- ===== src/Cell/Tests.antt =====
-- A concrete cell.
use pi_ipython.Common.{ℕ, Text, text, true, false, Option, none, [], ◌∷◌}
use pi_ipython.Output.Report.{FinalOutput}
use pi_ipython.Cell.{CellReport, Execution, report_of}

-- A cell that failed after it made six figures, in a kernel that replaced a lost one.
abbrev failed_cell : Execution
failed_cell = record {
  result = record {
    status = text "error";
    execution_count = none;
    error = none;
    output = text "boom";
    images = text "iVBO" ∷ text "R0lG" ∷ [];
    images_dropped = 4;
  };
  kernel_reset = true;
}

abbrev no_save : Text → ℕ → Option (Text × ℕ)
no_save t n = none

abbrev boom : FinalOutput
boom = record { output = text "boom"; truncated = false; header = none; full_output_path = none }

abbrev failed_report : CellReport
failed_report = report_of failed_cell [] boom
