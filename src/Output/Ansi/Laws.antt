-- ===== src/Output/Ansi/Laws.antt =====
-- What `stripAnsi` removes and what it keeps.
use pi_ipython.Common.{
  ℕ, zero, suc, ◌≤◌, ◌<◌, Text, none, some, [], ◌∷◌, length, ◌≡◌, ◌≢◌, refl, arith, Option-cases,
  inl, inr,
}
use pi_ipython.Output.Ansi.{
  esc, after_bell, after_terminator, skip_range, final_byte, control_end, escape_sequence_end,
  strip_loop, strip_ansi,
}

length-after_bell : (s r : Text) → after_bell s ≡ some r → length r < length s
unfolding after_bell
length-after_bell [] r h = cc
length-after_bell (c ∷ s) r h = ground (arith, length-after_bell s r)

length-after_terminator : (s r : Text) → after_terminator s ≡ some r → length r < length s
unfolding after_terminator
length-after_terminator [] r h = cc
length-after_terminator (c ∷ []) r h = cc
length-after_terminator (c ∷ d ∷ s) r h = ground (arith, length-after_terminator (d ∷ s) r)

length-skip_range : (low high : ℕ) (s : Text) → length (skip_range low high s) ≤ length s
unfolding skip_range
length-skip_range low high [] = omega arith
length-skip_range low high (c ∷ s) = ground (arith, length-skip_range low high s)

length-final_byte : (s r : Text) → final_byte s ≡ some r → length r < length s
unfolding final_byte
length-final_byte [] r h = cc
length-final_byte (c ∷ s) r h = ground arith

length-control_end : (s r : Text) → control_end s ≡ some r → length r < length s
unfolding control_end
length-control_end [] r h = cc
length-control_end (c ∷ s) r h = ground (
  arith,
  length-final_byte (skip_range 0x20 0x2f (skip_range 0x30 0x3f s)) r,
  length-skip_range 0x20 0x2f (skip_range 0x30 0x3f s),
  length-skip_range 0x30 0x3f s,
)

length-escape_sequence_end : (s r : Text) → escape_sequence_end s ≡ some r → length r < length s
unfolding escape_sequence_end
length-escape_sequence_end [] r h = cc
length-escape_sequence_end (c ∷ s) r h =
    ground (arith, length-after_bell s r, length-after_terminator s r, length-control_end (c ∷ s) r)

-- A round for each character of the text is enough: with that many or more, the result does not
-- depend on the number.
pub strip_loop_fuel :
    (f g : ℕ) (s : Text) → length s ≤ f → length s ≤ g → strip_loop f s ≡ strip_loop g s
unfolding strip_loop
strip_loop_fuel zero zero s hf hg = refl
strip_loop_fuel zero (suc g) [] hf hg = refl
strip_loop_fuel zero (suc g) (c ∷ s) hf hg = absurd (omega arith)
strip_loop_fuel (suc f) zero [] hf hg = refl
strip_loop_fuel (suc f) zero (c ∷ s) hf hg = absurd (omega arith)
strip_loop_fuel (suc f) (suc g) [] hf hg = refl
strip_loop_fuel (suc f) (suc g) (c ∷ s) hf hg = elim (Option-cases (escape_sequence_end s)) [
  | inl e ↦ rw (e, strip_loop) (rw (strip_loop_fuel f g s (omega arith) (omega arith)))
  | inr (r, e) ↦
      let short = length-escape_sequence_end s r e in
      rw e (
        rw (strip_loop_fuel f g s (omega arith) (omega arith))
          (rw (strip_loop_fuel f g r (omega arith) (omega arith))))
]

strip_loop-eq : (f : ℕ) (s : Text) → length s ≤ f → strip_loop f s ≡ strip_ansi s
unfolding strip_ansi
strip_loop-eq f s h = strip_loop_fuel f (length s) s h (omega arith)

pub strip_ansi_nil : strip_ansi [] ≡ []
unfolding strip_ansi strip_loop
strip_ansi_nil = refl

pub strip_ansi_plain : (c : ℕ) (s : Text) → c ≢ esc → strip_ansi (c ∷ s) ≡ c ∷ strip_ansi s
unfolding strip_ansi strip_loop
strip_ansi_plain c s h = ground arith

pub strip_ansi_broken :
    (s : Text) → escape_sequence_end s ≡ none → strip_ansi (esc ∷ s) ≡ esc ∷ strip_ansi s
unfolding strip_ansi strip_loop
strip_ansi_broken s h = rw h

pub strip_ansi_sequence :
    (s r : Text) → escape_sequence_end s ≡ some r → strip_ansi (esc ∷ s) ≡ strip_ansi r
strip_ansi_sequence s r h =
    unfold strip_ansi strip_loop in
    rw h (strip_loop_fuel (length s) (length r) r short (omega arith))
  where
    short : length r ≤ length s
    short = omega (arith, length-escape_sequence_end s r h)
