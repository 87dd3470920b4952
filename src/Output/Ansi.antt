-- ===== src/Output/Ansi.antt =====
-- core/output.ts: `stripAnsi` and `escapeSequenceEnd`. An index is modelled by the text from it on.
pub mod Laws
pub mod Sequences
pub mod Order
use pi_ipython.Common.{
  ℕ, zero, suc, ◌+◌, ◌-◌, ◌*◌, ◌/◌, ◌%◌, Text, text, Bool, true, false, not, ◌&&◌, ◌||◌, Option,
  none, some, List, [], ◌∷◌, ◌++◌, ltb, leb, ◌==◌, if◌then◌else◌, length, drop, ends_with_newline,
  join, decimal, concat,
}
use pi_ipython.Common.Utf8.{utf8, byte_length, is_cont, from_utf8}

abbrev pub esc : ℕ
esc = 0x1b

abbrev pub bel : ℕ
bel = 0x07

-- `inRange`, false on the NaN that `charCodeAt` gives past the end.
unfoldable pub in_range : Option ℕ → ℕ → ℕ → Bool
in_range none low high = false
in_range (some code) low high = leb low code && leb code high

abbrev head? : Text → Option ℕ
head? [] = none
head? (c ∷ s) = some c

-- `value.indexOf(BEL, …)`, as the text after it.
pub after_bell : Text → Option Text
after_bell [] = none
after_bell (c ∷ s) = if c == bel then some s else after_bell s

abbrev or_else : Option Text → Option Text → Option Text
or_else none o = o
or_else (some t) o = some t

-- `value.lastIndexOf(ESC \)`, as the text after it.
pub after_terminator : Text → Option Text
after_terminator [] = none
after_terminator (c ∷ []) = none
after_terminator (c ∷ d ∷ s) =
    or_else (after_terminator (d ∷ s)) (if c == esc && d == 92 then some s else none)

-- The loop `while (inRange(…)) end++`.
unfoldable pub skip_range : ℕ → ℕ → Text → Text
unfolding in_range
skip_range low high [] = []
skip_range low high (c ∷ s) =
    let rest = skip_range low high s in if in_range (some c) low high then rest else c ∷ s

-- The end of `escapeSequenceEnd`: the final byte after the parameters and the intermediates.
pub final_byte : Text → Option Text
unfolding in_range
final_byte [] = none
final_byte (c ∷ s) = if in_range (some c) 0x40 0x7e then some s else none

-- The rest of `escapeSequenceEnd`, after its treatment of OSC sequences.
pub control_end : Text → Option Text
unfolding in_range skip_range final_byte
control_end [] = none
control_end (c ∷ s) =
    if in_range (some c) 0x40 0x5f
    then final_byte (skip_range 0x20 0x2f (skip_range 0x30 0x3f s))
    else none

-- `escapeSequenceEnd`, from the text after the ESC to the text after the sequence.
pub escape_sequence_end : Text → Option Text
unfolding control_end after_bell after_terminator
escape_sequence_end [] = none
escape_sequence_end (c ∷ s) =
    if c == b']'
    then or_else (after_bell s) (or_else (after_terminator s) (control_end (c ∷ s)))
    else control_end (c ∷ s)

-- The loop of `stripAnsi`: a round for each character that is kept and for each sequence that is
-- left out.
pub strip_loop : ℕ → Text → Text
unfolding escape_sequence_end
strip_loop zero s = s
strip_loop (suc f) [] = []
strip_loop (suc f) (c ∷ s) =
    let kept = c ∷ strip_loop f s in
    let found : Text = elim (escape_sequence_end s) [
      | none ↦ kept
      | some rest ↦ strip_loop f rest
    ] in
    if c == esc then found else kept

unfoldable pub strip_ansi : Text → Text
unfolding strip_loop
strip_ansi value = strip_loop (length value) value
