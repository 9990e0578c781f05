-- ===== src/Prelude/Utf8.antt =====
-- Rust's `str::from_utf8`: which bytes are a text.
use Prim.Native.Nat.{ℕ, zero, suc, ◌-◌}
use mathlib.Core.Bool.{Bool, false, ◌&&◌}
use mathlib.Core.Option.{Option, none, some}
use mathlib.Core.List.{List, [], ◌∷◌}
use buddy3d_proxy.Prelude.Tests.{leb, if◌then◌else◌, ◌==◌}

abbrev between : ℕ → ℕ → ℕ → Bool
between lo hi b = leb lo b && leb b hi

-- How many bytes a character still lacks, and the range of the next of them.
record Expect : Type 0 where
  missing : ℕ
  low : ℕ
  high : ℕ

abbrev expect : ℕ → ℕ → ℕ → Option Expect
expect missing low high = some (record { missing = missing; low = low; high = high })

abbrev leading_byte : ℕ → Option Expect
leading_byte b =
    if leb b 0x7F
    then expect 0 0 0
    else if between 0xC2 0xDF b
    then expect 1 0x80 0xBF
    else if b == 0xE0
    then expect 2 0xA0 0xBF
    else if b == 0xED
    then expect 2 0x80 0x9F
    else if between 0xE1 0xEF b
    then expect 2 0x80 0xBF
    else if b == 0xF0
    then expect 3 0x90 0xBF
    else if between 0xF1 0xF3 b
    then expect 3 0x80 0xBF
    else if b == 0xF4
    then expect 3 0x80 0x8F
    else none

abbrev next_byte : ℕ → ℕ → ℕ → ℕ → Option Expect
next_byte zero low high b = leading_byte b
next_byte (suc n) low high b = if between low high b then expect n 0x80 0xBF else none

abbrev step : Option Expect → ℕ → Option Expect
step none b = none
step (some e) b = next_byte e.missing e.low e.high b

read_bytes : Option Expect → List ℕ → Option Expect
read_bytes e [] = e
read_bytes e (b ∷ bs) = read_bytes (step e b) bs

abbrev is_complete : Option Expect → Bool
is_complete none = false
is_complete (some e) = e.missing == 0

unfoldable pub is_utf8 : List ℕ → Bool
unfolding read_bytes
is_utf8 bytes = is_complete (read_bytes (expect 0 0 0) bytes)

-- How many bytes a character has, by its first.
abbrev pub char_width : ℕ → ℕ
char_width b = if leb b 0x7F then 1 else if leb b 0xDF then 2 else if leb b 0xEF then 3 else 4

-- `chars().take`: `n` more characters, behind `left` more bytes of the one before.
unfoldable pub take_chars : ℕ → ℕ → List ℕ → List ℕ
take_chars n left [] = []
take_chars n (suc left) (b ∷ bs) = b ∷ take_chars n left bs
take_chars zero zero (b ∷ bs) = []
take_chars (suc n) zero (b ∷ bs) = b ∷ take_chars n (char_width b - 1) bs
