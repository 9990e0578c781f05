-- ===== src/Prelude/Bytes.antt =====
-- Masks and shifts on one byte as arithmetic. Each fact is a table over the values of a byte.
use Prim.Native.Nat.{ℕ, zero, suc, ◌+◌, ◌*◌, ◌/◌, ◌%◌, ◌<◌, bit_and, bit_or}
use mathlib.Core.Path.{◌≡◌, refl}
use mathlib.Core.Bool.{Bool, true, false}
use mathlib.Core.Logic.{ite}
use native.Mathlib.Decide.{ℕ_discrete}
use native.Mathlib.Omega.{arith}

abbrev pub IsByte : ℕ → Type 0
IsByte b = b < 256

module _ (f g : ℕ → ℕ) where
  unfoldable pub agree_below : ℕ → Bool
  unfolding ℕ_discrete
  agree_below zero = true
  agree_below (suc n) = ite (ℕ_discrete (f n) (g n)) (agree_below n) false

  pub agree_below→eq : (n : ℕ) → agree_below n ≡ true → (i : ℕ) → i < n → f i ≡ g i
  unfolding agree_below
  agree_below→eq zero e i h = absurd (omega arith)
  agree_below→eq (suc n) e i h = ground (arith, agree_below→eq n (ground arith) i)

-- `b & 0x1F`, `b & 0xE0`, `b & 0x80`, `b & 0x40`
pub low_five : (b : ℕ) → b < 256 → bit_and b 0x1F ≡ b % 32
unfolding agree_below
low_five = agree_below→eq _ _ 256 refl

pub high_three : (b : ℕ) → b < 256 → bit_and b 0xE0 ≡ b / 32 * 32
unfolding agree_below
high_three = agree_below→eq _ _ 256 refl

pub top_bit : (b : ℕ) → b < 256 → bit_and b 0x80 ≡ b / 128 * 128
unfolding agree_below
top_bit = agree_below→eq _ _ 256 refl

pub second_bit : (b : ℕ) → b < 256 → bit_and b 0x40 ≡ b % 128 / 64 * 64
unfolding agree_below
second_bit = agree_below→eq _ _ 256 refl

-- `b | 0x80` sets the top bit.
pub set_top_bit : (b : ℕ) → b < 256 → bit_or b 0x80 ≡ b % 128 + 128
unfolding agree_below
set_top_bit = agree_below→eq _ _ 256 refl

-- The high three bits and the low five make up the byte.
pub join_parts : (b : ℕ) → b < 256 → bit_or (b / 32 * 32) (b % 32) ≡ b
unfolding agree_below
join_parts = agree_below→eq _ _ 256 refl
