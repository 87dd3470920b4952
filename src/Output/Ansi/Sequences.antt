-- ===== src/Output/Ansi/Sequences.antt =====
-- Texts with escape sequences: what is left of them, and that nothing is added.
use pi_ipython.Common.{
  ℕ, ◌≤◌, Text, false, some, [], ◌∷◌, ◌++◌, All, ◌≡◌, ◌≢◌, refl, ap, ◌∙◌, arith,
}
use pi_ipython.Output.Ansi.{
  esc, bel, in_range, after_bell, skip_range, final_byte, control_end, escape_sequence_end,
  strip_ansi,
}
use pi_ipython.Output.Ansi.Laws.{strip_ansi_plain, strip_ansi_sequence}

abbrev pub Within : ℕ → ℕ → ℕ → Type 0
Within low high c = (low ≤ c) × (c ≤ high)

skip_range-append :
    (low high : ℕ) (s : Text) (c : ℕ) (r : Text)
    → All (Within low high) s
    → in_range (some c) low high ≡ false
    → skip_range low high (s ++ c ∷ r) ≡ c ∷ r
unfolding skip_range
skip_range-append low high [] c r h k = rw k
skip_range-append low high (d ∷ s) c r (h, hs) k =
    ground (arith, skip_range-append low high s c r hs k)

-- Parameters, intermediates and a final byte, in this order.
abbrev pub IsControl : Text → Text → ℕ → Type 0
IsControl ps is f = All (Within 0x30 0x3f) ps × All (Within 0x20 0x2f) is × Within 0x40 0x7e f

skip_intermediates :
    (is : Text) (f : ℕ) (r : Text)
    → All (Within 0x20 0x2f) is
    → Within 0x40 0x7e f
    → skip_range 0x30 0x3f (is ++ f ∷ r) ≡ is ++ f ∷ r
unfolding skip_range in_range
skip_intermediates [] f r h k = ground arith
skip_intermediates (i ∷ is) f r (h, hs) k = ground arith

skip_parameters :
    (ps is : Text) (f : ℕ) (r : Text)
    → All (Within 0x30 0x3f) ps
    → All (Within 0x20 0x2f) is
    → Within 0x40 0x7e f
    → skip_range 0x30 0x3f (ps ++ (is ++ f ∷ r)) ≡ is ++ f ∷ r
unfolding skip_range in_range
skip_parameters [] is f r hp hi hf = skip_intermediates is f r hi hf
skip_parameters (p ∷ ps) is f r (h, hp) hi hf = ground (arith, skip_parameters ps is f r hp hi hf)

control_end_lem :
    (i : ℕ) (ps is : Text) (f : ℕ) (r : Text)
    → Within 0x40 0x5f i
    → IsControl ps is f
    → control_end (i ∷ (ps ++ (is ++ f ∷ r))) ≡ some r
unfolding control_end
control_end_lem i ps is f r hi (hp, hs, hf) =
    rw (skip_parameters ps is f r hp hs hf, control_end)
      (rw (skip_range-append 0x20 0x2f is f r hs (unfold in_range in ground arith), control_end)
        (unfold final_byte in_range in ground arith))

-- Plain characters pass through, whatever follows them.
strip_ansi-append :
    (plain s : Text) → All (λ c. c ≢ esc) plain → strip_ansi (plain ++ s) ≡ plain ++ strip_ansi s
strip_ansi-append [] s h = refl
strip_ansi-append (c ∷ plain) s (h, hs) =
    strip_ansi_plain c (plain ++ s) h ∙ ap (◌∷◌ c) (strip_ansi-append plain s hs)

control-escape_sequence_end :
    (i : ℕ) (ps is : Text) (f : ℕ) (r : Text)
    → Within 0x40 0x5f i
    → i ≢ b']'
    → IsControl ps is f
    → escape_sequence_end (i ∷ (ps ++ (is ++ f ∷ r))) ≡ some r
unfolding escape_sequence_end
control-escape_sequence_end i ps is f r hi ne h = ground (arith, control_end_lem i ps is f r hi h)

-- A control sequence (ESC, an introducer other than `]`, parameters, intermediates, a final byte)
-- behind text without ESC is removed, that text stays, and what follows is treated the same way.
pub strip_ansi_control :
    (plain : Text) (i : ℕ) (ps is : Text) (f : ℕ) (rest : Text)
    → All (λ c. c ≢ esc) plain
    → Within 0x40 0x5f i
    → i ≢ b']'
    → IsControl ps is f
    → strip_ansi (plain ++ (esc ∷ i ∷ (ps ++ (is ++ f ∷ rest)))) ≡ plain ++ strip_ansi rest
strip_ansi_control plain i ps is f rest hp hi ne h =
    strip_ansi-append plain _ hp
    ∙ ap (◌++◌ plain)
        (strip_ansi_sequence _ rest (control-escape_sequence_end i ps is f rest hi ne h))

after_bell-append :
    (body rest : Text) → All (λ c. c ≢ bel) body → after_bell (body ++ bel ∷ rest) ≡ some rest
unfolding after_bell
after_bell-append [] rest h = refl
after_bell-append (c ∷ body) rest (h, hs) = ground (arith, after_bell-append body rest hs)

-- An OSC sequence behind text without ESC is removed up to its first BEL, whatever stands between
-- (an ESC included).
pub strip_ansi_osc :
    (plain body rest : Text)
    → All (λ c. c ≢ esc) plain
    → All (λ c. c ≢ bel) body
    → strip_ansi (plain ++ (esc ∷ b']' ∷ (body ++ bel ∷ rest))) ≡ plain ++ strip_ansi rest
strip_ansi_osc plain body rest hp hb =
    strip_ansi-append plain _ hp ∙ ap (◌++◌ plain) (strip_ansi_sequence _ rest found)
  where
    found : escape_sequence_end (b']' ∷ (body ++ bel ∷ rest)) ≡ some rest
    found = unfold escape_sequence_end in rw (after_bell-append body rest hb)
