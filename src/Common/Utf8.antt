-- ===== src/Common/Utf8.antt =====
-- UTF-8 as `Buffer` writes and reads it. A lone surrogate is written as U+FFFD.
pub mod Laws
pub mod Decode
use Prim.Native.Nat.{ℕ, zero, suc, ◌+◌, ◌-◌, ◌*◌, ◌/◌, ◌%◌, ◌<◌, ◌≤◌, bit_and}
use mathlib.Core.Path.{◌≡◌}
use mathlib.Core.Bool.{Bool, true, false, ◌&&◌}
use mathlib.Core.Logic.{◌⊎◌}
use mathlib.Core.List.{List, [], ◌∷◌, ◌++◌}
use pi_ipython.Common.Tests.{ltb, leb, ◌==◌, if◌then◌else◌}
use pi_ipython.Common.Lists.{length, All}
use pi_ipython.Common.Strings.{Text}

abbrev pub is_surrogate : ℕ → Bool
is_surrogate c = leb 55296 c && ltb c 57344

-- The first byte of a code point.
pub lead : ℕ → ℕ
lead c =
    if ltb c 128
    then c
    else if ltb c 2048
    then 192 + c / 64
    else if is_surrogate c
    then 239
    else if ltb c 65536
    then 224 + c / 4096
    else 240 + c / 262144

-- The continuation bytes of a code point.
pub conts : ℕ → List ℕ
conts c =
    if ltb c 128
    then []
    else if ltb c 2048
    then (128 + c % 64) ∷ []
    else if is_surrogate c
    then 191 ∷ 189 ∷ []
    else if ltb c 65536
    then (128 + (c / 64) % 64) ∷ (128 + c % 64) ∷ []
    else (128 + (c / 4096) % 64) ∷ (128 + (c / 64) % 64) ∷ (128 + c % 64) ∷ []

-- `Buffer.from(t, "utf-8")`.
unfoldable pub utf8 : Text → List ℕ
unfolding lead conts
utf8 [] = []
utf8 (c ∷ t) = lead c ∷ (conts c ++ utf8 t)

-- `Buffer.byteLength(t, "utf-8")`.
abbrev pub byte_length : Text → ℕ
byte_length t = length (utf8 t)

-- `(byte & 0xc0) === 0x80`.
unfoldable pub is_cont : ℕ → Bool
is_cont b = bit_and b 192 == 128

-- A decoder's state: how many continuation bytes are missing, and the bits read.
pub record Pending : Type 0 where
  pub missing : ℕ
  pub bits : ℕ

abbrev pub idle : Pending
idle = record { missing = 0; bits = 0 }

-- A byte that begins a code point. A stray byte is read as U+FFFD.
begin : ℕ → Text × Pending
begin b =
    if ltb b 128
    then (b ∷ [], idle)
    else if ltb b 192
    then (65533 ∷ [], idle)
    else if ltb b 224
    then ([], record { missing = 1; bits = b - 192 })
    else if ltb b 240
    then ([], record { missing = 2; bits = b - 224 })
    else ([], record { missing = 3; bits = b - 240 })

continued : ℕ → ℕ → ℕ → Text × Pending
continued n acc b =
    if n == 1
    then ((acc * 64 + (b - 128)) ∷ [], idle)
    else ([], record { missing = n - 1; bits = acc * 64 + (b - 128) })

feed : Pending → ℕ → Text × Pending
unfolding begin continued
feed p b =
    if p.missing == 0
    then begin b
    else if leb 128 b && ltb b 192
    then continued p.missing p.bits b
    else (65533 ∷ (begin b).0, (begin b).1)

pub decode_from : Pending → List ℕ → Text
unfolding feed
decode_from p [] = if p.missing == 0 then [] else 65533 ∷ []
decode_from p (b ∷ bs) = (feed p b).0 ++ decode_from (feed p b).1 bs

-- `bytes.toString("utf-8")`. On bytes that are no UTF-8 it is coarser than Node's.
unfoldable pub from_utf8 : List ℕ → Text
unfolding decode_from
from_utf8 bs = decode_from idle bs

-- What a code point reads as after it was written: a lone surrogate is replaced.
unfoldable pub repair : ℕ → ℕ
repair c = if is_surrogate c then 65533 else c

abbrev pub IsCodePoint : ℕ → Type 0
IsCodePoint c = c < 1114112

-- A code point that is no surrogate.
abbrev pub IsScalar : ℕ → Type 0
IsScalar c = (c < 1114112) × ((c < 55296) ⊎ (57344 ≤ c))

abbrev pub IsText : Text → Type 0
IsText t = All IsCodePoint t

-- Text with no lone surrogate.
abbrev pub IsWellFormed : Text → Type 0
IsWellFormed t = All IsScalar t
