-- ===== src/Output/Truncation/Bounds.antt =====
-- The limits of a tail, and that it keeps as many lines as they allow.
use mathlib.Core.List.{reverse, reverse_aux}
use pi_ipython.Common.{
  ℕ, ◌+◌, ◌≤◌, ◌<◌, Text, List, [], ◌∷◌, ltb, length, ◌≡◌, ◌⊎◌, refl, arith, inl, inr, Bool-cases,
  lt→ltb, join,
}
use pi_ipython.Common.Utf8.{utf8, byte_length}
use pi_ipython.Common.Utf8.Laws.{byte_length-append}
use pi_ipython.Output.Truncation.{newline, end_of_line, separator_bytes, keep_lines}

abbrev pub joined : List Text → Text
joined ls = join (newline ∷ []) ls

byte_length-newline : byte_length (newline ∷ []) ≡ 1
unfolding utf8
byte_length-newline = refl

byte_length-joined_nil : byte_length (joined []) ≡ 0
unfolding join utf8
byte_length-joined_nil = refl

byte_length-joined :
    (l : Text) (ls : List Text)
    → byte_length (joined (l ∷ ls)) ≡ byte_length (joined ls) + (byte_length l + separator_bytes ls)
byte_length-joined l [] = unfold join utf8 in omega arith
byte_length-joined l (m ∷ ls) =
    unfold join in
    omega (
      arith,
      byte_length-append l (newline ∷ join (newline ∷ []) (m ∷ ls)),
      byte_length-append (newline ∷ []) (join (newline ∷ []) (m ∷ ls)),
      byte_length-newline,
    )

abbrev pub Fits : ℕ → ℕ → List Text → Type 0
Fits max_lines max_bytes ls = (length ls ≤ max_lines) × (byte_length (joined ls) ≤ max_bytes)

-- Why no line more was kept: there is none, or a limit would be passed.
abbrev pub Stops : ℕ → ℕ → List Text → List Text → Type 0
Stops max_lines max_bytes [] ls = Unit
Stops max_lines max_bytes (l ∷ rest) ls =
    (length ls ≡ max_lines) ⊎ (max_bytes < byte_length (joined (l ∷ ls)))

-- `kept` is the end of the lines that the loop stops at; `rest` are those before it, last first.
abbrev pub Kept : ℕ → ℕ → List Text → List Text → Type 0
Kept max_lines max_bytes all kept =
    (rest : List Text) × (reverse_aux rest kept ≡ all)
    × Fits max_lines max_bytes kept
    × Stops max_lines max_bytes rest kept

-- The last line alone is too long, and its end is kept.
abbrev pub Cut : ℕ → List Text → List Text → Type 0
Cut max_bytes back kept =
    (line : Text) × (rest : List Text) × (back ≡ line ∷ rest)
    × (max_bytes < byte_length line)
    × (kept ≡ end_of_line line max_bytes ∷ [])

module _ (max_lines max_bytes : ℕ) where
  keep_more :
      (back : List Text) (k : Text) (ks : List Text) (kept_bytes : ℕ)
      → Fits max_lines max_bytes (k ∷ ks)
      → kept_bytes ≡ byte_length (joined (k ∷ ks))
      → Kept max_lines max_bytes
          (reverse_aux back (k ∷ ks))
          (keep_lines max_lines max_bytes back (k ∷ ks) kept_bytes)
  unfolding keep_lines
  keep_more [] k ks kept_bytes f e = ([], refl, f, tt)
  keep_more (l ∷ back) k ks kept_bytes f e = elim (Bool-cases (ltb (length (k ∷ ks)) max_lines)) [
    | inr full ↦ rw full (l ∷ back, refl, f, inl (ground arith))
    | inl room ↦ elim (Bool-cases (ltb max_bytes (kept_bytes + (byte_length l + 1)))) [
      | inl over ↦
          rw (room, over) (l ∷ back, refl, f, inr (ground (arith, byte_length-joined l (k ∷ ks))))
      | inr fits ↦
          rw (room, fits)
            (keep_more back l (k ∷ ks) (kept_bytes + (byte_length l + 1))
              (ground arith, ground (arith, byte_length-joined l (k ∷ ks)))
              (ground (arith, byte_length-joined l (k ∷ ks))))
    ]
  ]

  keep_more-some :
      (back : List Text) (k : Text) (ks : List Text) (kept_bytes : ℕ)
      → 0 < length (keep_lines max_lines max_bytes back (k ∷ ks) kept_bytes)
  unfolding keep_lines
  keep_more-some [] k ks kept_bytes = omega arith
  keep_more-some (l ∷ back) k ks kept_bytes =
      ground (arith, keep_more-some back l (k ∷ ks) (kept_bytes + (byte_length l + 1)))

  pub keep_lines_lem :
      (back : List Text)
      → 0 < max_lines
      → Cut max_bytes back (keep_lines max_lines max_bytes back [] 0)
        ⊎ (Kept max_lines max_bytes (reverse back) (keep_lines max_lines max_bytes back [] 0)
            × ((back ≡ []) ⊎ (0 < length (keep_lines max_lines max_bytes back [] 0))))
  unfolding keep_lines
  keep_lines_lem [] pos =
      inr (([], refl, (omega arith, unfold join utf8 in omega arith), tt), inl refl)
  keep_lines_lem (l ∷ back) pos = elim (Bool-cases (ltb max_bytes (0 + (byte_length l + 0)))) [
    | inl over ↦ rw (lt→ltb 0 max_lines pos, over) (inl (l, back, refl, ground arith, refl))
    | inr fits ↦
        rw (lt→ltb 0 max_lines pos, fits)
          (inr (
            keep_more back l [] (0 + (byte_length l + 0))
                (omega arith, ground (arith, byte_length-joined l [], byte_length-joined_nil))
                (ground (arith, byte_length-joined l [], byte_length-joined_nil)),
            inr (keep_more-some back l [] (0 + (byte_length l + 0))),
          ))
  ]
