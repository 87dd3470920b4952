-- ===== src/Output/Truncation.antt =====
-- core/output.ts: `truncateTail` and `endOfLine`.
pub mod EndOfLine
pub mod Bounds
pub mod Lines
pub mod Tails
use pi_ipython.Common.{
  ℕ, zero, suc, ◌+◌, ◌-◌, ◌*◌, ◌/◌, ◌%◌, Text, text, Bool, true, false, not, ◌&&◌, ◌||◌, Option,
  none, some, List, [], ◌∷◌, ◌++◌, ltb, leb, ◌==◌, if◌then◌else◌, length, drop, ends_with_newline,
  join, decimal, concat,
}
use pi_ipython.Common.Utf8.{utf8, byte_length, is_cont, from_utf8}
use mathlib.Core.List.{reverse}

abbrev pub output_max_lines : ℕ
output_max_lines = 2000

abbrev pub output_max_bytes : ℕ
output_max_bytes = 50 * 1024

abbrev pub newline : ℕ
newline = 10

pub record Tail : Type 0 where
  pub content : Text
  pub truncated : Bool
  pub total_lines : ℕ
  pub total_bytes : ℕ
  pub output_lines : ℕ
  pub output_bytes : ℕ

-- A character before the first line of a split text.
abbrev push_char : ℕ → List Text → List Text
push_char c [] = (c ∷ []) ∷ []
push_char c (l ∷ ls) = (c ∷ l) ∷ ls

-- `content.split("\n")`.
unfoldable pub split_lines : Text → List Text
split_lines [] = [] ∷ []
split_lines (c ∷ s) = if c == newline then [] ∷ split_lines s else push_char c (split_lines s)

-- `lines.pop()`.
abbrev pub drop_last : List Text → List Text
drop_last [] = []
drop_last (l ∷ []) = []
drop_last (l ∷ m ∷ ls) = l ∷ drop_last (m ∷ ls)

-- The array `lines` of `truncateTail`.
unfoldable pub lines_of : Text → List Text
unfolding split_lines
lines_of [] = []
lines_of (c ∷ s) =
    if ends_with_newline (c ∷ s) then drop_last (split_lines (c ∷ s)) else split_lines (c ∷ s)

-- The loop of `endOfLine` over continuation bytes.
pub skip_conts : List ℕ → List ℕ
skip_conts [] = []
skip_conts (b ∷ bs) = let rest = skip_conts bs in if is_cont b then rest else b ∷ bs

-- `endOfLine`. With a line of fewer than `max_bytes` bytes, `start` is negative: the loop stops at
-- once, and `subarray` counts from the end.
unfoldable pub end_of_line : Text → ℕ → Text
unfolding skip_conts
end_of_line line max_bytes =
    let size = byte_length line in
    if leb max_bytes size
    then from_utf8 (skip_conts (drop (size - max_bytes) (utf8 line)))
    else from_utf8 (drop (size - (max_bytes - size)) (utf8 line))

abbrev separator_bytes : List Text → ℕ
separator_bytes [] = 0
separator_bytes (l ∷ ls) = 1

-- `kept` after the `break`.
abbrev keep_end : ℕ → Text → List Text → List Text
keep_end max_bytes line [] = end_of_line line max_bytes ∷ []
keep_end max_bytes line (k ∷ ks) = k ∷ ks

-- The loop of `truncateTail`, from the last line on: `back` holds the lines that are left, the last
-- one first.
pub keep_lines : ℕ → ℕ → List Text → List Text → ℕ → List Text
keep_lines max_lines max_bytes [] kept kept_bytes = kept
keep_lines max_lines max_bytes (line ∷ back) kept kept_bytes =
    let line_bytes = byte_length line + separator_bytes kept in
    let rest = keep_lines max_lines max_bytes back (line ∷ kept) (kept_bytes + line_bytes) in
    if ltb (length kept) max_lines
    then (if ltb max_bytes (kept_bytes + line_bytes) then keep_end max_bytes line kept else rest)
    else kept

unfoldable pub truncate_tail : Text → Tail
unfolding lines_of keep_lines
truncate_tail content =
    let total_bytes = byte_length content in
    let lines = lines_of content in
    let total_lines = length lines in
    let kept = keep_lines output_max_lines output_max_bytes (reverse lines) [] 0 in
    let tail = join (newline ∷ []) kept in
    if leb total_lines output_max_lines && leb total_bytes output_max_bytes
    then record {
      content = content;
      truncated = false;
      total_lines = total_lines;
      total_bytes = total_bytes;
      output_lines = total_lines;
      output_bytes = total_bytes;
    }
    else record {
      content = tail;
      truncated = true;
      total_lines = total_lines;
      total_bytes = total_bytes;
      output_lines = length kept;
      output_bytes = byte_length tail;
    }
