-- ===== src/Extension/Tests.antt =====
-- A concrete session.
use pi_ipython.Common.{
  text_eq, ◌++◌, ℕ, Text, text, ends_with_newline, true, false, Option, none, some, List, [], ◌∷◌,
  ◌≡◌, refl,
}
use pi_ipython.Common.Utf8.{utf8}
use pi_ipython.Output.Ansi.{strip_ansi}
use pi_ipython.Output.Truncation.{truncate_tail}
use pi_ipython.Output.Report.{final_output}
use pi_ipython.Protocol.{get, JsonValue, string, array, object, Items, item, Fields, field}
use pi_ipython.Persistence.Summary.{strings_of}
use pi_ipython.Cell.{Execution, CellReport, report_of, cell_result}
use pi_ipython.Extension.{
  checkpoint_ids, collect_ids, stored, get_notices, delete, set, Handled, on_tool_result, Entry,
  custom, checkpoint_entry_type, Forwarded, ToolResult, deliver,
}

abbrev checkpoint_fields : Text → JsonValue
checkpoint_fields id = object (field (text "checkpoint") (string id) Fields.end)

abbrev old_branch : List Entry
old_branch = custom checkpoint_entry_type (some (checkpoint_fields (text "a"))) ∷ Entry.other ∷ []

abbrev new_entries : List Entry
new_entries = Entry.tool_result (text "ipython") (some (checkpoint_fields (text "b"))) ∷ []

-- The newest first.
branch_ids : checkpoint_ids (old_branch ++ new_entries) ≡ text "b" ∷ text "a" ∷ []
unfolding checkpoint_ids collect_ids stored text_eq text get
branch_ids = refl

-- A cell that a script ran, with a notice.
abbrev nested : ToolResult
nested = record {
  call_id = text "call-2";
  tool_name = text "ipython";
  parent = some (text "call-1");
  details = some (checkpoint_fields (text "c"));
  structured = some (
      object
        (field (text "notices") (array (item (string (text "restored")) Items.nil)) Fields.end));
}

abbrev waiting : Forwarded
waiting = (text "call-2", text "reset" ∷ []) ∷ []

abbrev handled : Handled
handled = record {
  forwarded = (text "call-1", text "reset" ∷ text "restored" ∷ []) ∷ [];
  entry = some (text "c");
  shown = [];
}

-- Its notices, and those that wait for it, wait for the script's call.
nested_waits : on_tool_result nested waiting ≡ handled
unfolding on_tool_result get_notices delete set text_eq text get strings_of
nested_waits = refl

abbrev quiet_cell : Execution
quiet_cell = record {
  result = record {
    status = text "ok";
    execution_count = none;
    error = none;
    output = text "1";
    images = [];
    images_dropped = 0;
  };
  kernel_reset = true;
}

abbrev no_file : Text → ℕ → Option (Text × ℕ)
no_file t n = none

abbrev quiet_report : CellReport
quiet_report =
    report_of quiet_cell (text "restored" ∷ text "saved" ∷ [])
      (record { output = text "1"; truncated = false; header = none; full_output_path = none })

quiet_delivery :
    deliver quiet_cell (text "restored" ∷ []) (text "saved" ∷ []) no_file 0
    ≡ (some (quiet_report, 0), [])
unfolding deliver cell_result final_output strip_ansi truncate_tail text ends_with_newline utf8
quiet_delivery = refl
