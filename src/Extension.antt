-- ===== src/Extension.antt =====
-- extensions/ipython.ts: the checkpoints on a branch, the notices on their way to the model, and the
-- text of a result.
pub mod Branch
pub mod Notices
pub mod Results
pub mod Live
pub mod Session
mod Tests
use pi_ipython.Common.{
  ℕ, Text, text, text_eq, Bool, true, false, not, ◌&&◌, ◌||◌, Option, none, some, List, [], ◌∷◌,
  ◌++◌, if◌then◌else◌, join, concat, is_some,
}
use mathlib.Core.List.{reverse}
use pi_ipython.Protocol.{
  JsonValue, string, object, Fields, field, get, as_string, BridgeError, describe_error,
}
use pi_ipython.Output.Report.{or_text}
use pi_ipython.Persistence.Summary.{as_strings}
use pi_ipython.Cell.{reset_notice, Execution, CellReport, cell_result}

-- What `checkpointIds` tells apart in a session: custom entries, with their type, and the results of
-- tools, with the tool's name.
pub data Entry : Type 0 where
  custom : Text → Option JsonValue → Entry
  tool_result : Text → Option JsonValue → Entry
  other : Entry

abbrev pub checkpoint_entry_type : Text
checkpoint_entry_type = text "ipython-checkpoint"

-- `Value.Check(CheckpointRef, stored)`, with the checkpoint's ID.
abbrev pub as_checkpoint_ref : Option JsonValue → Option Text
as_checkpoint_ref (some (object fs)) = as_string (get (text "checkpoint") fs)
as_checkpoint_ref _ = none

unfoldable pub stored : Entry → Option JsonValue
stored (custom type value) = if text_eq type checkpoint_entry_type then value else none
stored (tool_result name details) = if text_eq name (text "ipython") then details else none
stored other = none

abbrev pub add_id : Option Text → List Text → List Text
add_id none ids = ids
add_id (some id) ids = id ∷ ids

-- The loop of `checkpointIds`, over the entries from the last one on.
unfoldable pub collect_ids : List Entry → List Text
collect_ids [] = []
collect_ids (entry ∷ entries) = add_id (as_checkpoint_ref (stored entry)) (collect_ids entries)

unfoldable pub checkpoint_ids : List Entry → List Text
checkpoint_ids branch = collect_ids (reverse branch)

-- `Map<string, string[]>`.
abbrev pub Forwarded : Type 0
Forwarded = List (Text × List Text)

unfoldable pub get_notices : Text → Forwarded → List Text
get_notices key [] = []
get_notices key ((k, notices) ∷ rest) =
    let found = get_notices key rest in if text_eq k key then notices else found

unfoldable pub delete : Text → Forwarded → Forwarded
delete key [] = []
delete key ((k, notices) ∷ rest) =
    let others = delete key rest in if text_eq k key then rest else (k, notices) ∷ others

unfoldable pub set : Text → List Text → Forwarded → Forwarded
set key value [] = (key, value) ∷ []
set key value ((k, notices) ∷ rest) =
    let others = set key value rest in
    if text_eq k key then (k, value) ∷ rest else (k, notices) ∷ others

-- An event `tool_result`.
pub record ToolResult : Type 0 where
  pub call_id : Text
  pub tool_name : Text
  pub parent : Option Text
  pub details : Option JsonValue
  pub structured : Option JsonValue

-- `Value.Check(ForwardedNotices, structuredContent)`, with the notices.
abbrev pub or_no_notices : Option (List Text) → List Text
or_no_notices none = []
or_no_notices (some ts) = ts

abbrev pub notices_of : Option JsonValue → List Text
notices_of (some (object fs)) = or_no_notices (as_strings (get (text "notices") fs))
notices_of _ = []

abbrev pub is_nested : ToolResult → Bool
is_nested e = text_eq e.tool_name (text "ipython") && is_some e.parent

-- What the handler does: the map afterwards, the checkpoint entry that it appends, and the notices
-- that it adds to the result's content, joined by an empty line.
pub record Handled : Type 0 where
  pub forwarded : Forwarded
  pub entry : Option Text
  pub shown : List Text

abbrev pub pass_on : Option Text → List Text → Forwarded → Option Text → Handled
pass_on parent [] map entry = record { forwarded = map; entry = entry; shown = [] }
pass_on none (t ∷ ts) map entry = record { forwarded = map; entry = entry; shown = t ∷ ts }
pass_on (some parent) (t ∷ ts) map entry = record {
  forwarded = set parent (get_notices parent map ++ t ∷ ts) map;
  entry = entry;
  shown = [];
}

-- The handler of `tool_result`.
unfoldable pub on_tool_result : ToolResult → Forwarded → Handled
on_tool_result e map =
    let waiting = get_notices e.call_id map in
    let left = delete e.call_id map in
    let own = notices_of e.structured in
    if is_nested e
    then pass_on e.parent (waiting ++ own) left (as_checkpoint_ref e.details)
    else pass_on e.parent waiting left none

-- `execute` loses the kernel: the reset notice waits for the result of the call.
unfoldable pub on_kernel_lost : Text → Forwarded → Forwarded
on_kernel_lost call_id map = set call_id (reset_notice ∷ []) map

-- The notices that opening the console left, delivered with the next result.
unfoldable pub deliver {ℓ} :
    {S : Type ℓ}
    → Execution
    → List Text
    → List Text
    → (Text → S → Option (Text × S))
    → S
    → Option (CellReport × S) × List Text
deliver execution undelivered notices save s =
    elim (cell_result execution (undelivered ++ notices) save s) [
      | none ↦ (none, undelivered)
      | some r ↦ (some r, [])
    ]

-- `header ? `${header}\n${output}` : output`.
abbrev pub body_of : Option Text → Text → Text
body_of none output = output
body_of (some []) output = output
body_of (some (c ∷ t)) output = c ∷ (t ++ 10 ∷ output)

abbrev pub with_notice : Text → Text → Text
with_notice [] body = body
with_notice (c ∷ t) [] = c ∷ t
with_notice (c ∷ t) (d ∷ s) = (c ∷ t) ++ (text "\n\n" ++ d ∷ s)

-- The text of `execute`'s result.
unfoldable pub result_text : Text → Option Text → Text → Bool → Option BridgeError → Text
result_text notice header output failed error =
    or_text (with_notice notice (body_of header output))
      (or_text (if failed then describe_error error else []) (text "[no output]"))
