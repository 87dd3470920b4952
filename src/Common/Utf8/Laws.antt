-- ===== src/Common/Utf8/Laws.antt =====
-- The shape of encoded text: a lead byte, then continuation bytes.
use Prim.Native.Nat.{bit_and}
use Prim.Native.Nat.{ℕ, zero, suc, ◌+◌, ◌≤◌, ◌<◌, ◌%◌, ◌/◌}
use mathlib.Core.Path.{◌≡◌, refl, ap, ◌∙◌}
use mathlib.Core.Bool.{Bool, true, false, ◌&&◌}
use mathlib.Core.List.{[], ◌∷◌, ◌++◌, append_assoc}
use native.Mathlib.Omega.{arith}
use pi_ipython.Common.Tests.{ltb, leb, ◌==◌, if◌then◌else◌}
use pi_ipython.Common.Lists.{length, length-append, All}
use pi_ipython.Common.Strings.{Text}
use pi_ipython.Common.Utf8.{utf8, lead, conts, is_cont, byte_length, IsCodePoint}

-- The test by mask and the test by range say the same of a byte.
abbrev agrees : ℕ → Bool
agrees b =
    if bit_and b 192 == 128 then leb 128 b && ltb b 192 else (if leb 192 b then true else ltb b 128)

-- All bytes below a bound, by evaluation.
bytes_agree : ℕ → Bool
bytes_agree zero = true
bytes_agree (suc bound) = agrees bound && bytes_agree bound

bytes_agree-below : (bound byte : ℕ) → byte < bound → bytes_agree bound ≡ true → agrees byte ≡ true
unfolding bytes_agree
bytes_agree-below zero byte below all = absurd (omega arith)
bytes_agree-below (suc bound) byte below all = ground (arith, bytes_agree-below bound byte)

every_byte_agrees : bytes_agree 256 ≡ true
unfolding bytes_agree
every_byte_agrees = refl

-- The mask test reads a byte's range.
pub is_cont_range : (b : ℕ) → b < 256 → is_cont b ≡ (leb 128 b && ltb b 192)
unfolding is_cont
is_cont_range b h = ground (arith, bytes_agree-below 256 b h every_byte_agrees)

pub lead-range : (c : ℕ) → IsCodePoint c → is_cont (lead c) ≡ false
unfolding lead
lead-range c h = ground (arith, is_cont_range (lead c))

pub conts-All : (c : ℕ) → IsCodePoint c → All (λ b. is_cont b ≡ true) (conts c)
unfolding conts
conts-All c h = ground (
  arith,
  is_cont_range 191,
  is_cont_range 189,
  is_cont_range (128 + c % 64),
  is_cont_range (128 + (c / 64) % 64),
  is_cont_range (128 + (c / 4096) % 64),
)

pub length-conts-le : (c : ℕ) → length (conts c) ≤ 3
unfolding conts
length-conts-le c = ground arith

pub utf8-append : (s t : Text) → utf8 (s ++ t) ≡ utf8 s ++ utf8 t
unfolding utf8
utf8-append [] t = refl
utf8-append (c ∷ s) t = rw (utf8-append s t, append_assoc)

pub byte_length-append : (s t : Text) → byte_length (s ++ t) ≡ byte_length s + byte_length t
byte_length-append s t = ap length (utf8-append s t) ∙ length-append (utf8 s) (utf8 t)
