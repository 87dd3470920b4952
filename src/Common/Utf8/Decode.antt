-- ===== src/Common/Utf8/Decode.antt =====
-- Decoding what was encoded.
use Prim.Native.Nat.{ℕ}
use mathlib.Core.Path.{◌≡◌, refl, ap, ap₂, ◌∙◌}
use mathlib.Core.List.{List, [], ◌∷◌, ◌++◌, map}
use native.Mathlib.Omega.{arith}
use pi_ipython.Common.Strings.{Text}
use pi_ipython.Common.Lists.{length, length-append}
use pi_ipython.Common.Utf8.{
  utf8, lead, conts, repair, byte_length, IsCodePoint, IsText, IsScalar, IsWellFormed, decode_from,
  feed, from_utf8, idle,
}

-- One code point is read back, whatever follows.
decode_char :
    (c : ℕ) (bs : List ℕ)
    → IsCodePoint c
    → decode_from idle (lead c ∷ (conts c ++ bs)) ≡ repair c ∷ decode_from idle bs
unfolding lead conts decode_from feed repair
decode_char c bs h = ground arith

decode_utf8 : (t : Text) → IsText t → decode_from idle (utf8 t) ≡ map repair t
unfolding utf8
decode_utf8 [] h = unfold decode_from in refl
decode_utf8 (c ∷ t) (h, hs) = decode_char c (utf8 t) h ∙ ap (◌∷◌ (repair c)) (decode_utf8 t hs)

-- Writing and reading back replaces the lone surrogates and keeps all else.
pub from_utf8-utf8 : (t : Text) → IsText t → from_utf8 (utf8 t) ≡ map repair t
unfolding from_utf8
from_utf8-utf8 t h = decode_utf8 t h

length-repair : (c : ℕ) → length (conts (repair c)) ≡ length (conts c)
unfolding conts repair
length-repair c = ground arith

-- The replacement takes as many bytes.
pub byte_length-repair : (t : Text) → byte_length (map repair t) ≡ byte_length t
unfolding utf8
byte_length-repair [] = refl
byte_length-repair (c ∷ t) = omega (
  arith,
  length-append (conts (repair c)) (utf8 (map repair t)),
  length-append (conts c) (utf8 t),
  length-repair c,
  byte_length-repair t,
)

repair_scalar : (c : ℕ) → IsScalar c → repair c ≡ c
unfolding repair
repair_scalar c h = ground arith

-- Text with no lone surrogate is kept as it is.
pub map-repair : (t : Text) → IsWellFormed t → map repair t ≡ t
map-repair [] h = refl
map-repair (c ∷ t) (h, hs) = ap₂ ◌∷◌ (repair_scalar c h) (map-repair t hs)
