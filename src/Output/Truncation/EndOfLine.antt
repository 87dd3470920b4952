-- ===== src/Output/Truncation/EndOfLine.antt =====
-- `endOfLine` keeps the longest end of a line that fits, cut between characters.
use pi_ipython.Common.{
  ℕ, zero, suc, ◌+◌, ◌-◌, ◌≤◌, Text, true, false, List, [], ◌∷◌, ◌++◌, map, leb, if◌then◌else◌,
  length, drop, All, ◌≡◌, refl, sym, ap, ◌∙◌, arith, length-append, inl, inr, Bool-cases,
}
use native.Mathlib.Nat.{zero-sub}
use pi_ipython.Common.Utf8.{utf8, conts, byte_length, is_cont, from_utf8, repair, IsText}
use pi_ipython.Common.Utf8.Laws.{lead-range, conts-All}
use pi_ipython.Common.Utf8.Decode.{from_utf8-utf8, byte_length-repair}
use pi_ipython.Output.Truncation.{skip_conts, end_of_line}

-- The longest end of a text that takes at most `n` bytes.
pub fit : ℕ → Text → Text
fit n [] = []
fit n (c ∷ t) = if leb (byte_length (c ∷ t)) n then c ∷ t else fit n t

skip_conts-utf8 : (t : Text) → IsText t → skip_conts (utf8 t) ≡ utf8 t
unfolding skip_conts utf8
skip_conts-utf8 [] h = refl
skip_conts-utf8 (c ∷ t) (h, hs) = rw (lead-range c h)

-- The same count, written another way.
drop_count : (s : List ℕ) {m n : ℕ} → m ≡ n → skip_conts (drop m s) ≡ skip_conts (drop n s)
drop_count s e = ap (λ k. skip_conts (drop k s)) e

skip_conts-drop :
    (n : ℕ) (cs : List ℕ) (t : Text)
    → All (λ b. is_cont b ≡ true) cs
    → IsText t
    → skip_conts (drop n (cs ++ utf8 t)) ≡ skip_conts (drop (n - length cs) (utf8 t))
skip_conts-drop n [] t h ht = drop_count (utf8 t) (omega arith)
skip_conts-drop zero (b ∷ cs) t (h, hs) ht =
    skip_first b (cs ++ utf8 t) h
    ∙ skip_conts-drop zero cs t hs ht
    ∙ drop_count (utf8 t) {m = 0 - length cs} {n = 0 - suc (length cs)} (omega arith)
  where
    skip_first : (b : ℕ) (bs : List ℕ) → is_cont b ≡ true → skip_conts (b ∷ bs) ≡ skip_conts bs
    skip_first b bs e = unfold skip_conts in rw e
skip_conts-drop (suc n) (b ∷ cs) t (h, hs) ht =
    skip_conts-drop n cs t hs ht
    ∙ drop_count (utf8 t) {m = n - length cs} {n = suc n - suc (length cs)} (omega arith)

byte_length-cons : (c : ℕ) (t : Text) → byte_length (c ∷ t) ≡ suc (length (conts c) + byte_length t)
unfolding utf8
byte_length-cons c t = ap suc (length-append (conts c) (utf8 t))

-- Past the first byte of a character, the rest of that character is skipped.
skip_into :
    (c : ℕ) (t : Text) (j : ℕ)
    → IsText (c ∷ t)
    → skip_conts (drop (suc j) (utf8 (c ∷ t))) ≡ skip_conts (drop (j - length (conts c)) (utf8 t))
unfolding utf8
skip_into c t j (h, hs) = skip_conts-drop j (conts c) t (conts-All c h) hs

fit_over : (n c : ℕ) (t : Text) → leb (byte_length (c ∷ t)) n ≡ false → fit n (c ∷ t) ≡ fit n t
unfolding fit
fit_over n c t e = rw e

fit_whole : (n c : ℕ) (t : Text) → leb (byte_length (c ∷ t)) n ≡ true → fit n (c ∷ t) ≡ c ∷ t
unfolding fit
fit_whole n c t e = rw e

pub byte_length-fit : (n : ℕ) (t : Text) → byte_length (fit n t) ≤ n
unfolding fit
byte_length-fit n [] = unfold utf8 in omega arith
byte_length-fit n (c ∷ t) = ground (arith, byte_length-fit n t)

skip_drop-fit :
    (n : ℕ) (t : Text) → IsText t → skip_conts (drop (byte_length t - n) (utf8 t)) ≡ utf8 (fit n t)
skip_drop-fit n [] h = unfold utf8 skip_conts fit in rw (zero-sub n)
skip_drop-fit n (c ∷ t) h = elim (Bool-cases (leb (byte_length (c ∷ t)) n)) [
  | inl e ↦
      drop_count (utf8 (c ∷ t)) {m = byte_length (c ∷ t) - n} {n = 0} (ground arith)
      ∙ skip_conts-utf8 (c ∷ t) h
      ∙ ap utf8 (sym (fit_whole n c t e))
  | inr e ↦
      drop_count (utf8 (c ∷ t)) {m = byte_length (c ∷ t) - n}
        {n = suc (length (conts c) + byte_length t - n)} (ground (arith, byte_length-cons c t))
      ∙ skip_into c t (length (conts c) + byte_length t - n) h
      ∙ drop_count (utf8 t) {m = length (conts c) + byte_length t - n - length (conts c)}
          {n = byte_length t - n} (omega arith)
      ∙ skip_drop-fit n t h.1
      ∙ ap utf8 (sym (fit_over n c t e))
]

fit-IsText : (n : ℕ) (t : Text) → IsText t → IsText (fit n t)
unfolding fit
fit-IsText n [] h = tt
fit-IsText n (c ∷ t) (h, hs) = ground (arith, fit-IsText n t hs)

-- Of a line of at least `n` bytes, `endOfLine` gives the longest end that takes at most `n` bytes,
-- cut between characters. (Lone surrogates come back as U+FFFD, as everywhere in `Buffer`.)
pub end_of_line-fit :
    (line : Text) (n : ℕ)
    → IsText line
    → n ≤ byte_length line
    → end_of_line line n ≡ map repair (fit n line)
unfolding end_of_line
end_of_line-fit line n h long =
    let within : leb n (byte_length line) ≡ true = ground arith in
    rw within
      (ap from_utf8 (skip_drop-fit n line h) ∙ from_utf8-utf8 (fit n line) (fit-IsText n line h))

pub byte_length-end_of_line :
    (line : Text) (n : ℕ)
    → IsText line
    → n ≤ byte_length line
    → byte_length (end_of_line line n) ≤ n
byte_length-end_of_line line n h long = omega (
  arith,
  ap byte_length (end_of_line-fit line n h long),
  byte_length-repair (fit n line),
  byte_length-fit n line,
)
