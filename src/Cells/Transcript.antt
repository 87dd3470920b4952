-- ===== src/Cells/Transcript.antt =====
-- extensions/cells.ts: `withoutControlCharacters` and the methods of `CellsView` that record cells.
pub mod Limits
pub mod Streams
use pi_ipython.Common.{
  ℕ, suc, ◌+◌, ◌-◌, ◌*◌, Text, text, Bool, true, false, not, ◌&&◌, ◌||◌, Option, none, some, List,
  [], ◌∷◌, ◌++◌, ltb, leb, ◌==◌, if◌then◌else◌, is_some, strip_prefix, decimal, concat,
}
use pi_ipython.Common.Utf8.{byte_length}

abbrev pub max_transcript_bytes : ℕ
max_transcript_bytes = 16 * 1024 * 1024

-- The characters that stay. (The source looks at the first code unit: a surrogate, for a character
-- past U+FFFF.)
abbrev pub is_shown : ℕ → Bool
is_shown c = ltb 0x9f c || ((leb 0x20 c && ltb c 0x7f) || (c == 9 || c == 10))

unfoldable pub without_control_characters : Text → Text
without_control_characters [] = []
without_control_characters (c ∷ t) =
    let rest = without_control_characters t in if is_shown c then c ∷ rest else rest

-- The fields of `CellsView` that the transcript uses, and what cells.txt holds, if it is there.
pub record Transcript : Type 0 where
  pub file : Option Text
  pub disposed : Bool
  pub failure : Option Text
  pub bytes : ℕ
  pub full : Bool
  pub count : ℕ
  pub started : ℕ
  pub latest_output : Text

unfoldable pub new_transcript : Transcript
new_transcript = record {
  file = none;
  disposed = false;
  failure = none;
  bytes = 0;
  full = false;
  count = 0;
  started = 0;
  latest_output = [];
}

-- What the file system answers to one call of `append`: `file()` throws, or the append does.
pub data Write : Type 0 where
  written : Write
  not_opened : Text → Write
  not_appended : Text → Write

abbrev pub file_header : Text
file_header =
    text
      "IPython cells recorded before this console opened. New cells appear live below the prompt.\n"

abbrev pub limit_notice : Text
limit_notice = text "\n[History limit reached (16 MiB). Recording stopped until /reload.]\n"

-- `file()`, and an append to it.
abbrev pub opened : Option Text → Text
opened none = file_header
opened (some f) = f

abbrev pub add_piece : Write → Text → Bool → Transcript → Transcript
add_piece written piece last t = record t { file = some (opened t.file ++ piece); full = last }
add_piece (not_opened e) piece last t = record t { failure = some e }
add_piece (not_appended e) piece last t = record t { file = some (opened t.file); failure = some e }

-- `append`. `strip` is `stripVTControlCharacters` of Node.
module _ (strip : Text → Text) where
  unfoldable pub append : Write → Text → Transcript → Transcript
  append disk value t =
      let piece = without_control_characters (strip value) in
      let counted = record t { bytes = t.bytes + byte_length piece } in
      if t.disposed || (is_some t.failure || t.full)
      then t
      else if ltb max_transcript_bytes counted.bytes
      then add_piece disk limit_notice true counted
      else add_piece disk piece false counted

  -- `code.replaceAll("\n", "\n... ")`.
  unfoldable pub continuation_lines : Text → Text
  continuation_lines [] = []
  continuation_lines (c ∷ t) = (if c == 10 then text "\n... " else c ∷ []) ++ continuation_lines t

  unfoldable pub begin : Write → ℕ → Text → Transcript → Transcript
  begin disk now code t =
      append disk
        (concat (
          text "\n=== Cell "
          ∷ decimal (suc t.count)
          ∷ text " | running ===\n>>> "
          ∷ continuation_lines code
          ∷ text "\n\n"
          ∷ []))
        (record t { count = suc t.count; started = now; latest_output = [] })

  unfoldable pub note : Write → Text → Transcript → Transcript
  note disk message t = append disk (text "\n[" ++ (message ++ text "]\n")) t

  -- `output`. Its note and its append are two writes.
  unfoldable pub output : Write → Write → Text → Transcript → Transcript
  output disk disk2 shown t =
      let replaced = append disk2 shown (note disk (text "output cleared/replaced") t) in
      let recorded : Transcript = elim (strip_prefix t.latest_output shown) [
        | none ↦ replaced
        | some rest ↦ append disk2 rest t
      ] in
      record recorded { latest_output = shown }

  -- `finish`. `seconds` is how a template string prints milliseconds as seconds.
  unfoldable pub finish : (ℕ → Text) → Write → ℕ → Text → Transcript → Transcript
  finish seconds disk now status t =
      record (note disk
        (concat (
          text "Cell "
          ∷ decimal t.count
          ∷ text " | "
          ∷ status
          ∷ text " | "
          ∷ seconds (now - t.started)
          ∷ text "s"
          ∷ []))
        t) { latest_output = [] }
