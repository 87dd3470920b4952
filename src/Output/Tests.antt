-- ===== src/Output/Tests.antt =====
-- Concrete outputs.
use pi_ipython.Common.{
  ℕ, zero, suc, ◌≤◌, Text, text, true, false, Option, none, some, [], ◌∷◌, ◌++◌, ◌≡◌, ◌⊎◌, ◌↔◌,
  refl, arith, length, ends_with_newline, map, decimal,
}
use pi_ipython.Common.Utf8.{utf8, byte_length, IsText, repair}
use pi_ipython.Output.Ansi.{esc, strip_ansi, strip_loop}
use pi_ipython.Output.Ansi.Laws.{strip_loop_fuel}
use pi_ipython.Output.Ansi.Sequences.{strip_ansi_control}
use pi_ipython.Output.Ansi.Order.{Subsequence, strip_ansi-Subsequence}
use pi_ipython.Output.Truncation.{
  newline, output_max_lines, output_max_bytes, lines_of, end_of_line, truncate_tail,
}
use pi_ipython.Output.Truncation.Tails.{
  IsCut, IsWhole, truncate_tail_within, truncate_tail_kept, truncate_tail_bounds,
}
use pi_ipython.Output.Truncation.EndOfLine.{fit, end_of_line-fit}
use pi_ipython.Output.Report.{FinalOutput, final_output, format_size}
use pi_ipython.Output.Report.Laws.{IsPlain, IsSaved, final_output_lem}

-- "\e[31mred\e[0m!"
abbrev red : Text
red = text "red"

abbrev coloured : Text
coloured = esc ∷ (text "[31m" ++ (red ++ (esc ∷ text "[0m!")))

stripped : strip_ansi coloured ≡ text "red!"
unfolding strip_ansi text
stripped = refl

size_of_1536 : format_size 1536 ≡ text "1.5KB"
unfolding format_size text decimal
size_of_1536 = refl

-- As many empty lines.
abbrev blank : ℕ → Text
blank zero = []
blank (suc n) = newline ∷ blank n

blank-IsText : (n : ℕ) → IsText (blank n)
blank-IsText zero = tt
blank-IsText (suc n) = (ground arith, blank-IsText n)

long_output : (truncate_tail (blank 2001)).truncated ≡ true
unfolding truncate_tail ends_with_newline
long_output = refl

strip_ansi_control_example :
    strip_ansi (text "a" ++ (esc ∷ b'[' ∷ (text "31" ++ ([] ++ b'm' ∷ text "b"))))
    ≡ text "a" ++ strip_ansi (text "b")
unfolding text
strip_ansi_control_example =
    strip_ansi_control (text "a") b'[' (text "31") [] b'm' (text "b") (ground arith) (ground arith)
      (ground arith) (ground arith)

strip_loop_fuel_example : strip_loop 3 (text "red") ≡ strip_loop 9 (text "red")
unfolding text
strip_loop_fuel_example = strip_loop_fuel 3 9 (text "red") (omega arith) (omega arith)

strip_ansi-Subsequence_example : Subsequence (strip_ansi coloured) coloured
strip_ansi-Subsequence_example = strip_ansi-Subsequence coloured

truncate_tail_within_example :
    (((truncate_tail red).truncated ≡ false)
      ↔ ((length (lines_of red) ≤ output_max_lines) × (byte_length red ≤ output_max_bytes)))
    × ((truncate_tail red).truncated ≡ false → (truncate_tail red).content ≡ red)
    × ((truncate_tail red).total_lines ≡ length (lines_of red))
    × ((truncate_tail red).total_bytes ≡ byte_length red)
truncate_tail_within_example = truncate_tail_within red

truncate_tail_kept_example :
    IsCut
      (blank 2001)
      (truncate_tail (blank 2001)).content
      (truncate_tail (blank 2001)).output_lines
    ⊎ IsWhole
        (blank 2001)
        (truncate_tail (blank 2001)).content
        (truncate_tail (blank 2001)).output_lines
truncate_tail_kept_example = truncate_tail_kept (blank 2001) (blank-IsText 2001) long_output

truncate_tail_bounds_example :
    ((truncate_tail (blank 2001)).output_lines ≤ output_max_lines)
    × ((truncate_tail (blank 2001)).output_bytes ≤ output_max_bytes)
    × ((truncate_tail (blank 2001)).output_lines ≤ (truncate_tail (blank 2001)).total_lines)
    × ((truncate_tail (blank 2001)).output_bytes ≡ byte_length (truncate_tail (blank 2001)).content)
truncate_tail_bounds_example = truncate_tail_bounds (blank 2001) (blank-IsText 2001)

-- "é€", of which two bytes hold no whole character.
abbrev accents : Text
accents = 0xe9 ∷ 0x20ac ∷ []

accents-IsText : IsText accents
accents-IsText = ground arith

accents_long : 2 ≤ byte_length accents
unfolding utf8
accents_long = ground arith

end_of_line-fit_example : end_of_line accents 2 ≡ map repair (fit 2 accents)
end_of_line-fit_example = end_of_line-fit accents 2 accents-IsText accents_long

-- A `save` that counts its files and gives each the same path.
abbrev count_saves : Text → ℕ → Option (Text × ℕ)
count_saves t n = some (text "/tmp/output", suc n)

abbrev shown_red : FinalOutput
shown_red = record {
  output = text "red!";
  truncated = false;
  header = none;
  full_output_path = none;
}

red_output : final_output coloured count_saves 0 ≡ some (shown_red, 0)
unfolding final_output strip_ansi truncate_tail text ends_with_newline utf8
red_output = refl

coloured-IsText : IsText coloured
unfolding text
coloured-IsText = ground arith

final_output_lem_example :
    IsPlain {S = ℕ} coloured 0 shown_red 0 ⊎ IsSaved {S = ℕ} coloured count_saves 0 shown_red 0
final_output_lem_example =
    final_output_lem coloured count_saves 0 0 shown_red coloured-IsText red_output
