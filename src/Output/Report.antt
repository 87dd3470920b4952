-- ===== src/Output/Report.antt =====
-- core/output.ts: `formatSize`, `partialText` and `finalOutput`.
pub mod Laws
use pi_ipython.Common.{
  ℕ, zero, suc, ◌+◌, ◌-◌, ◌*◌, ◌/◌, ◌%◌, Text, text, Bool, true, false, not, ◌&&◌, ◌||◌, Option,
  none, some, List, [], ◌∷◌, ◌++◌, ltb, leb, ◌==◌, if◌then◌else◌, length, drop, ends_with_newline,
  join, decimal, concat,
}
use pi_ipython.Common.Utf8.{utf8, byte_length, is_cont, from_utf8}
use pi_ipython.Output.Ansi.{strip_ansi}
use pi_ipython.Output.Truncation.{Tail, truncate_tail, newline}

-- `(x).toFixed(1)` of `bytes / unit`, for an exact quotient: tenths rounded half up.
pub fixed_1 : ℕ → ℕ → Text
fixed_1 bytes unit =
    let tenths = (bytes * 20 + unit) / (unit * 2) in
    decimal (tenths / 10) ++ (b'.' ∷ decimal (tenths % 10))

unfoldable pub format_size : ℕ → Text
unfolding fixed_1
format_size bytes =
    if ltb bytes 1024
    then decimal bytes ++ text "B"
    else if ltb bytes (1024 * 1024)
    then fixed_1 bytes 1024 ++ text "KB"
    else fixed_1 bytes (1024 * 1024) ++ text "MB"

-- `a || b` on strings.
abbrev pub or_text : Text → Text → Text
or_text [] other = other
or_text (c ∷ s) other = c ∷ s

unfoldable pub partial_text : Text → Text
partial_text output =
    let tail = truncate_tail (strip_ansi output) in
    if tail.truncated
    then text "[Live output truncated; showing the tail]" ++ (newline ∷ tail.content)
    else or_text tail.content (text "[no output yet]")

pub record FinalOutput : Type 0 where
  pub output : Text
  pub truncated : Bool
  pub header : Option Text
  pub full_output_path : Option Text

pub header_of : Tail → Text → Text
header_of tail path = join (b' ' ∷ []) (
    concat (
      text "[Output truncated: showing the last "
      ∷ decimal tail.output_lines
      ∷ text " of "
      ∷ decimal tail.total_lines
      ∷ text " lines"
      ∷ [])
    ∷ concat (
        text "("
        ∷ format_size tail.output_bytes
        ∷ text " of "
        ∷ format_size tail.total_bytes
        ∷ text ")."
        ∷ [])
    ∷ concat (
        decimal (tail.total_lines - tail.output_lines)
        ∷ text " lines ("
        ∷ format_size (tail.total_bytes - tail.output_bytes)
        ∷ text ") omitted."
        ∷ [])
    ∷ concat (text "Full output saved to: " ∷ path ∷ text "]" ∷ [])
    ∷ [])

-- `finalOutput`. `save` works on a state of its own, and throws by giving `none`.
unfoldable pub final_output {ℓ} :
    {S : Type ℓ} → Text → (Text → S → Option (Text × S)) → S → Option (FinalOutput × S)
final_output {S} output save s =
    let clean = strip_ansi output in
    let tail = truncate_tail clean in
    let plain : Option (FinalOutput × S) = some (
      record { output = tail.content; truncated = false; header = none; full_output_path = none },
      s,
    ) in
    let saved : Option (FinalOutput × S) = elim (save clean s) [
      | none ↦ none
      | some (path, s') ↦ some (
        record {
          output = tail.content;
          truncated = true;
          header = some (header_of tail path);
          full_output_path = some path;
        },
        s',
      )
    ] in
    if tail.truncated then saved else plain
