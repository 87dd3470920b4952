-- ===== src/Output/Ansi/Order.antt =====
-- Removing escape sequences adds and reorders nothing.
use pi_ipython.Common.{
  ℕ, zero, suc, Text, ◌&&◌, some, [], ◌∷◌, ◌==◌, length, ◌≡◌, arith, Option-cases, Bool-cases, inl,
  inr, subst,
}
use pi_ipython.Output.Ansi.{
  esc, bel, in_range, after_bell, after_terminator, skip_range, final_byte, control_end,
  escape_sequence_end, strip_loop, strip_ansi,
}

-- The first text is the second with some characters left out.
pub data Subsequence : Text → Text → Type 0 where
  end : Subsequence [] []
  keep : {s t : Text} (c : ℕ) → Subsequence s t → Subsequence (c ∷ s) (c ∷ t)
  omit : {s t : Text} (c : ℕ) → Subsequence s t → Subsequence s (c ∷ t)

-- `r` is `s` from some place on.
data Suffix (r : Text) : Text → Type 0 where
  whole : Suffix r r
  later : {s : Text} (c : ℕ) → Suffix r s → Suffix r (c ∷ s)

Subsequence-refl : (s : Text) → Subsequence s s
Subsequence-refl [] = end
Subsequence-refl (c ∷ s) = keep c (Subsequence-refl s)

Subsequence-Suffix : {x r s : Text} → Subsequence x r → Suffix r s → Subsequence x s
Subsequence-Suffix h whole = h
Subsequence-Suffix h (later c k) = omit c (Subsequence-Suffix h k)

Suffix-trans : {q r s : Text} → Suffix q r → Suffix r s → Suffix q s
Suffix-trans h whole = h
Suffix-trans h (later c k) = later c (Suffix-trans h k)

Suffix-some : {s r : Text} → some s ≡ some r → Suffix r s
Suffix-some {s} h = subst (λ x. Suffix x s) (cc) whole

after_bell-Suffix : (s r : Text) → after_bell s ≡ some r → Suffix r s
unfolding after_bell
after_bell-Suffix [] r h = cc
after_bell-Suffix (c ∷ s) r h = elim (Bool-cases (c == bel)) [
  | inl e ↦ later c (Suffix-some (rw e at h))
  | inr e ↦ later c (after_bell-Suffix s r (rw e at h))
]

after_terminator-Suffix : (s r : Text) → after_terminator s ≡ some r → Suffix r s
unfolding after_terminator
after_terminator-Suffix [] r h = cc
after_terminator-Suffix (c ∷ []) r h = cc
after_terminator-Suffix (c ∷ d ∷ s) r h = elim (Option-cases (after_terminator (d ∷ s))) [
  | inr (q, e) ↦ later c (after_terminator-Suffix (d ∷ s) r (ground arith))
  | inl e ↦ elim (Bool-cases (c == esc && d == 92)) [
    | inl f ↦ later c (later d (Suffix-some (ground arith)))
    | inr f ↦ cc
  ]
]

skip_range-Suffix : (low high : ℕ) (s : Text) → Suffix (skip_range low high s) s
unfolding skip_range
skip_range-Suffix low high [] = whole
skip_range-Suffix low high (c ∷ s) = elim (Bool-cases (in_range (some c) low high)) [
  | inl e ↦ rw e (later c (skip_range-Suffix low high s))
  | inr e ↦ rw e whole
]

final_byte-Suffix : (s r : Text) → final_byte s ≡ some r → Suffix r s
unfolding final_byte
final_byte-Suffix [] r h = cc
final_byte-Suffix (c ∷ s) r h = later c (Suffix-some (ground arith))

control_end-Suffix : (s r : Text) → control_end s ≡ some r → Suffix r s
unfolding control_end
control_end-Suffix [] r h = cc
control_end-Suffix (c ∷ s) r h = later c (
    Suffix-trans (final_byte-Suffix _ r (ground arith))
      (Suffix-trans (skip_range-Suffix 0x20 0x2f _) (skip_range-Suffix 0x30 0x3f s)))

escape_sequence_end-Suffix : (s r : Text) → escape_sequence_end s ≡ some r → Suffix r s
unfolding escape_sequence_end
escape_sequence_end-Suffix [] r h = cc
escape_sequence_end-Suffix (c ∷ s) r h = elim (Bool-cases (c == b']')) [
  | inr e ↦ control_end-Suffix (c ∷ s) r (rw e at h)
  | inl e ↦ elim (Option-cases (after_bell s)) [
    | inr (q, f) ↦ later c (after_bell-Suffix s r (ground arith))
    | inl f ↦ elim (Option-cases (after_terminator s)) [
      | inr (q, g) ↦ later c (after_terminator-Suffix s r (ground arith))
      | inl g ↦ control_end-Suffix (c ∷ s) r (ground arith)
    ]
  ]
]

strip_loop-Subsequence : (f : ℕ) (s : Text) → Subsequence (strip_loop f s) s
unfolding strip_loop
strip_loop-Subsequence zero s = Subsequence-refl s
strip_loop-Subsequence (suc f) [] = end
strip_loop-Subsequence (suc f) (c ∷ s) = elim (Bool-cases (c == esc)) [
  | inr e ↦ rw e (keep c (strip_loop-Subsequence f s))
  | inl e ↦ elim (Option-cases (escape_sequence_end s)) [
    | inl none_found ↦ rw (e, none_found) (keep c (strip_loop-Subsequence f s))
    | inr (r, found) ↦
        rw (e, found)
          (omit c (
            Subsequence-Suffix (strip_loop-Subsequence f r) (escape_sequence_end-Suffix s r found)))
  ]
]

-- Stripping only leaves characters out: it adds none, and keeps the order of the others.
pub strip_ansi-Subsequence : (value : Text) → Subsequence (strip_ansi value) value
unfolding strip_ansi
strip_ansi-Subsequence value = strip_loop-Subsequence (length value) value
