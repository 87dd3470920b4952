-- ===== src/Output/Truncation/Tails.antt =====
-- What `truncateTail` promises: its limits, when it truncates, and which part it keeps.
use mathlib.Core.List.{reverse, reverse_aux, reverse-reverse, reverse-cons}
use pi_ipython.Common.{
  ℕ, ◌+◌, ◌≤◌, ◌<◌, Text, Bool, true, false, ◌&&◌, List, [], ◌∷◌, ◌++◌, map, leb, length, All, ◌≡◌,
  ◌⊎◌, ◌↔◌, refl, sym, ap, ◌∙◌, subst, arith, inl, inr, Bool-cases, join, length-append,
}
use pi_ipython.Common.Utf8.{byte_length, IsText, repair}
use pi_ipython.Common.Utf8.Decode.{byte_length-repair}
use pi_ipython.Output.Truncation.{
  output_max_lines, output_max_bytes, lines_of, end_of_line, keep_lines, truncate_tail,
}
use pi_ipython.Output.Truncation.EndOfLine.{fit, end_of_line-fit, byte_length-fit}
use pi_ipython.Output.Truncation.Bounds.{joined, Kept, keep_lines_lem}
use pi_ipython.Output.Truncation.Lines.{lines_of-IsText}

abbrev kept_of : Text → List Text
kept_of content = keep_lines output_max_lines output_max_bytes (reverse (lines_of content)) [] 0

abbrev within : Text → Bool
within content =
    leb (length (lines_of content)) output_max_lines && leb (byte_length content) output_max_bytes

length-reverse_aux : (xs ys : List Text) → length (reverse_aux xs ys) ≡ length xs + length ys
length-reverse_aux [] ys = omega arith
length-reverse_aux (x ∷ xs) ys = omega (arith, length-reverse_aux xs (x ∷ ys))

joined_one : (l : Text) → joined (l ∷ []) ≡ l
unfolding join
joined_one l = refl

All-last : (ls : List Text) (l : Text) → All IsText (ls ++ l ∷ []) → IsText l
All-last [] l h = h.0
All-last (m ∷ ls) l h = All-last ls l h.1

-- One line too long, the last, of which the end is kept.
abbrev pub IsCut : Text → Text → ℕ → Type 0
IsCut content kept count =
    (line : Text) × (front : List Text) × (lines_of content ≡ front ++ line ∷ [])
    × (output_max_bytes < byte_length line)
    × (kept ≡ map repair (fit output_max_bytes line))
    × (count ≡ 1)

-- Whole lines, as many of the last ones as the limits allow, and at least one if there are lines.
abbrev pub IsWhole : Text → Text → ℕ → Type 0
IsWhole content kept count =
    (ls : List Text) × Kept output_max_lines output_max_bytes (lines_of content) ls
    × (kept ≡ joined ls)
    × (count ≡ length ls)
    × ((lines_of content ≡ []) ⊎ (0 < count))

kept_lem :
    (content : Text)
    → IsText content
    → IsCut content (joined (kept_of content)) (length (kept_of content))
      ⊎ IsWhole content (joined (kept_of content)) (length (kept_of content))
kept_lem content h =
    elim (keep_lines_lem output_max_lines output_max_bytes (reverse (lines_of content))
      (omega arith)) [
        | inl (line, rest, e, long, k) ↦
            inl (line, reverse rest, front line rest e, long, cut line rest e long k, ap length k)
        | inr (k, some_kept) ↦ inr (
          kept_of content,
          subst (λ ls. Kept output_max_lines output_max_bytes ls (kept_of content))
              (reverse-reverse (lines_of content)) k,
          refl,
          refl,
          kept_some some_kept,
        )
      ]
  where
    kept_some :
        (reverse (lines_of content) ≡ []) ⊎ (0 < length (kept_of content))
        → (lines_of content ≡ []) ⊎ (0 < length (kept_of content))
    kept_some (inl e) = inl (sym (reverse-reverse (lines_of content)) ∙ ap reverse e)
    kept_some (inr h) = inr h

    front :
        (line : Text) (rest : List Text)
        → reverse (lines_of content) ≡ line ∷ rest
        → lines_of content ≡ reverse rest ++ line ∷ []
    front line rest e =
        sym (reverse-reverse (lines_of content)) ∙ ap reverse e ∙ reverse-cons line rest

    cut :
        (line : Text) (rest : List Text)
        → reverse (lines_of content) ≡ line ∷ rest
        → output_max_bytes < byte_length line
        → kept_of content ≡ end_of_line line output_max_bytes ∷ []
        → joined (kept_of content) ≡ map repair (fit output_max_bytes line)
    cut line rest e long k =
        ap joined k
        ∙ joined_one (end_of_line line output_max_bytes)
        ∙ end_of_line-fit line output_max_bytes
            (All-last (reverse rest) line
              (subst (All IsText) (front line rest e) (lines_of-IsText content h)))
            (omega arith)

-- The tail is left alone exactly if the text is within both limits, and then it is the whole text;
-- the totals count the lines and the bytes of the text.
pub truncate_tail_within :
    (content : Text)
    → (((truncate_tail content).truncated ≡ false) ↔ (
        (length (lines_of content) ≤ output_max_lines) × (byte_length content ≤ output_max_bytes)))
      × ((truncate_tail content).truncated ≡ false → (truncate_tail content).content ≡ content)
      × ((truncate_tail content).total_lines ≡ length (lines_of content))
      × ((truncate_tail content).total_bytes ≡ byte_length content)
unfolding truncate_tail
truncate_tail_within content =
    ((ground arith, ground arith), ground arith, ground arith, ground arith)

-- A truncated tail is either the end of the last line, where that alone passes the byte limit (as
-- much of it as fits, cut between characters), or the last lines of the text, at least one if it has
-- lines, and as many as both limits allow: one more would pass a limit, or there is none.
pub truncate_tail_kept :
    (content : Text)
    → IsText content
    → (truncate_tail content).truncated ≡ true
    → IsCut content (truncate_tail content).content (truncate_tail content).output_lines
      ⊎ IsWhole content (truncate_tail content).content (truncate_tail content).output_lines
unfolding truncate_tail
truncate_tail_kept content h e = elim (Bool-cases (within content)) [
  | inl small ↦ let f : (truncate_tail content).truncated ≡ false = ground arith in cc f
  | inr large ↦ rw large (kept_lem content h)
]

pub IsCut-bounds :
    (content kept : Text) (count : ℕ)
    → IsCut content kept count
    → (count ≤ output_max_lines)
      × (byte_length kept ≤ output_max_bytes)
      × (count ≤ length (lines_of content))
IsCut-bounds content kept count (line, front, e, long, k, one) = (
  omega arith,
  omega (
    arith,
    ap byte_length k,
    byte_length-repair (fit output_max_bytes line),
    byte_length-fit output_max_bytes line,
  ),
  omega (arith, ap length e, length-append front (line ∷ [])),
)

pub IsWhole-bounds :
    (content kept : Text) (count : ℕ)
    → IsWhole content kept count
    → (count ≤ output_max_lines)
      × (byte_length kept ≤ output_max_bytes)
      × (count ≤ length (lines_of content))
IsWhole-bounds content kept count (ls, (rest, e, (few, small), stops), k, n, nonempty) = (
  omega arith,
  omega (arith, ap byte_length k),
  omega (arith, ap length e, length-reverse_aux rest ls),
)

-- Within the limits, whatever the text: at most 2000 lines and 50 KiB, no more lines than the text
-- has, and the byte count is that of the content.
pub truncate_tail_bounds :
    (content : Text)
    → IsText content
    → ((truncate_tail content).output_lines ≤ output_max_lines)
      × ((truncate_tail content).output_bytes ≤ output_max_bytes)
      × ((truncate_tail content).output_lines ≤ (truncate_tail content).total_lines)
      × ((truncate_tail content).output_bytes ≡ byte_length (truncate_tail content).content)
unfolding truncate_tail
truncate_tail_bounds content h = elim (Bool-cases (within content)) [
  | inl small ↦ rw small (ground arith, ground arith, omega arith, refl)
  | inr large ↦ elim (kept_lem content h) [
    | inl cut ↦
        let (a, b, c) =
          IsCut-bounds content (joined (kept_of content)) (length (kept_of content)) cut in
        rw large (a, b, c, refl)
    | inr whole ↦
        let (a, b, c) =
          IsWhole-bounds content (joined (kept_of content)) (length (kept_of content)) whole in
        rw large (a, b, c, refl)
  ]
]
