-- ===== src/Prelude/Decimal.antt =====
-- Rust's `str::parse` and `Display` of unsigned integers.
pub mod RoundTrip
use Prim.Native.Nat.{ℕ, zero, suc, ◌+◌, ◌-◌, ◌*◌, ◌/◌, ◌%◌}
use mathlib.Core.Bool.{Bool, ◌&&◌}
use mathlib.Core.Option.{Option, none, some}
use mathlib.Core.List.{[], ◌∷◌}
use buddy3d_proxy.Prelude.Tests.{leb, if◌then◌else◌, ◌==◌}
use buddy3d_proxy.Prelude.Text.{Text}

abbrev pub is_digit : ℕ → Bool
is_digit b = leb b'0' b && leb b b'9'

-- One more digit, unless it is none or the value passes `limit`.
abbrev pub add_digit : ℕ → Option ℕ → ℕ → Option ℕ
add_digit limit none b = none
add_digit limit (some n) b =
    let value = n * 10 + (b - b'0') in if is_digit b && leb value limit then some value else none

unfoldable pub parse_digits : ℕ → Option ℕ → Text → Option ℕ
parse_digits limit value [] = value
parse_digits limit value (b ∷ bs) = parse_digits limit (add_digit limit value b) bs

-- `parse` of an integer type with the greatest value `limit`: digits behind a plus sign or none.
unfoldable pub parse_unsigned : ℕ → Text → Option ℕ
unfolding parse_digits
parse_unsigned limit [] = none
parse_unsigned limit (b ∷ []) = if b == b'+' then none else parse_digits limit (some 0) (b ∷ [])
parse_unsigned limit (b ∷ c ∷ rest) =
    if b == b'+'
    then parse_digits limit (some 0) (c ∷ rest)
    else parse_digits limit (some 0) (b ∷ c ∷ rest)

-- The digits of `n` in front of `rest`; 20 of them are enough for an integer of 64 bits.
unfoldable pub digits_before : ℕ → ℕ → Text → Text
digits_before zero n rest = rest
digits_before (suc fuel) n rest =
    let here = (b'0' + n % 10) ∷ rest in
    let more = digits_before fuel (n / 10) here in if n / 10 == 0 then here else more

unfoldable pub to_text : ℕ → Text
unfolding digits_before
to_text n = digits_before 20 n []
