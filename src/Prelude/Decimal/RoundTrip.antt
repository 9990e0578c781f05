-- ===== src/Prelude/Decimal/RoundTrip.antt =====
-- Decimal numbers: what `parse` reads is within the type, and it reads back what `Display` writes.
use Prim.Native.Nat.{ℕ, zero, suc, ◌+◌, ◌/◌, ◌%◌, ◌^◌, ◌≤◌, ◌<◌}
use mathlib.Core.Path.{◌≡◌, refl, ap, subst, ◌∙◌}
use mathlib.Core.Logic.{◌≢◌, inl, inr}
use mathlib.Core.Bool.{true}
use mathlib.Core.Option.{Option, none, some}
use mathlib.Core.List.{[], ◌∷◌}
use native.Mathlib.Omega.{arith}
use buddy3d_proxy.Prelude.Lists.{All}
use buddy3d_proxy.Prelude.Tests.{◌==◌, Bool-cases}
use buddy3d_proxy.Prelude.Text.{Text}
use buddy3d_proxy.Prelude.Decimal.{add_digit, parse_digits, parse_unsigned, digits_before, to_text}

-- The number, if there is one, is within the limit.
abbrev pub IsWithin : ℕ → Option ℕ → Type 0
IsWithin limit none = Unit {0}
IsWithin limit (some n) = n ≤ limit

add_digit-IsWithin :
    (limit : ℕ) (o : Option ℕ) (b : ℕ) → IsWithin limit o → IsWithin limit (add_digit limit o b)
add_digit-IsWithin limit none b h = tt
add_digit-IsWithin limit (some n) b h = ground (arith, h)

parse_digits-IsWithin :
    (limit : ℕ) (o : Option ℕ) (s : Text)
    → IsWithin limit o
    → IsWithin limit (parse_digits limit o s)
unfolding parse_digits
parse_digits-IsWithin limit o [] h = h
parse_digits-IsWithin limit o (b ∷ s) h =
    parse_digits-IsWithin limit (add_digit limit o b) s (add_digit-IsWithin limit o b h)

pub parse_unsigned-IsWithin : (limit : ℕ) (s : Text) → IsWithin limit (parse_unsigned limit s)
unfolding parse_unsigned
parse_unsigned-IsWithin limit [] = tt
parse_unsigned-IsWithin limit (b ∷ []) = elim (Bool-cases (b == b'+')) [
  | inl e ↦ rw (e) tt
  | inr e ↦ rw (e) (parse_digits-IsWithin limit (some 0) (b ∷ []) (omega arith))
]
parse_unsigned-IsWithin limit (b ∷ c ∷ s) = elim (Bool-cases (b == b'+')) [
  | inl e ↦ rw (e) (parse_digits-IsWithin limit (some 0) (c ∷ s) (omega arith))
  | inr e ↦ rw (e) (parse_digits-IsWithin limit (some 0) (b ∷ c ∷ s) (omega arith))
]

abbrev pub IsDigit : ℕ → Type 0
IsDigit b = (b'0' ≤ b) × (b ≤ b'9')

digits_before-IsDigit :
    (fuel n : ℕ) (rest : Text) → All IsDigit rest → All IsDigit (digits_before fuel n rest)
unfolding digits_before
digits_before-IsDigit zero n rest h = h
digits_before-IsDigit (suc fuel) n rest h =
    let here : IsDigit (b'0' + n % 10) = (omega arith, omega arith) in
    elim (Bool-cases (n / 10 == 0)) [
      | inl e ↦ rw (e) (here, h)
      | inr e ↦ rw (e) (digits_before-IsDigit fuel (n / 10) ((b'0' + n % 10) ∷ rest) (here, h))
    ]

pub to_text-IsDigit : (n : ℕ) → All IsDigit (to_text n)
unfolding to_text
to_text-IsDigit n = digits_before-IsDigit 20 n [] tt

add_digit-last :
    (limit n : ℕ) → n ≤ limit → add_digit limit (some (n / 10)) (b'0' + n % 10) ≡ some n
add_digit-last limit n h = ground (arith, h)

parse_digits-last :
    (limit n : ℕ) (rest : Text)
    → n ≤ limit
    → parse_digits limit (some (n / 10)) ((b'0' + n % 10) ∷ rest) ≡ parse_digits limit (some n) rest
unfolding parse_digits
parse_digits-last limit n rest h = ap (λ o. parse_digits limit o rest) (add_digit-last limit n h)

parse_digits-first :
    (limit n : ℕ) (rest : Text)
    → n ≤ limit
    → n / 10 ≡ 0
    → parse_digits limit (some 0) ((b'0' + n % 10) ∷ rest) ≡ parse_digits limit (some n) rest
parse_digits-first limit n rest h e =
    subst
      (λ v. parse_digits limit (some v) ((b'0' + n % 10) ∷ rest) ≡ parse_digits limit (some n) rest)
      e (parse_digits-last limit n rest h)

parse_digits-digits_before :
    (limit fuel n : ℕ) (rest : Text)
    → n ≤ limit
    → n < 10 ^ (suc fuel)
    → parse_digits limit (some 0) (digits_before (suc fuel) n rest)
      ≡ parse_digits limit (some n) rest
unfolding parse_digits digits_before
parse_digits-digits_before limit zero n rest h h' =
    let first : n / 10 ≡ 0 = ground (arith, h') in
    let e : (n / 10 == 0) ≡ true = ground (arith, first) in
    rw (e) (parse_digits-first limit n rest h first)
parse_digits-digits_before limit (suc fuel) n rest h h' = elim (Bool-cases (n / 10 == 0)) [
  | inl e ↦ rw (e) (parse_digits-first limit n rest h (ground (arith, e)))
  | inr e ↦ rw (e) (
      parse_digits-digits_before limit fuel (n / 10) ((b'0' + n % 10) ∷ rest) (omega (arith, h))
        (omega (arith, h'))
      ∙ parse_digits-last limit n rest h)
]

parse_unsigned-digits :
    (limit : ℕ) (s : Text)
    → All IsDigit s
    → s ≢ []
    → parse_unsigned limit s ≡ parse_digits limit (some 0) s
unfolding parse_unsigned
parse_unsigned-digits limit [] h n = absurd (n refl)
parse_unsigned-digits limit (b ∷ []) h n = ground (arith, h)
parse_unsigned-digits limit (b ∷ c ∷ s) h n = ground (arith, h)

digits_before-nonempty : (fuel n : ℕ) (rest : Text) → rest ≢ [] → digits_before fuel n rest ≢ []
unfolding digits_before
digits_before-nonempty zero n rest h = h
digits_before-nonempty (suc fuel) n rest h = elim (Bool-cases (n / 10 == 0)) [
  | inl e ↦ rw (e) (λ x. cc)
  | inr e ↦ rw (e) (digits_before-nonempty fuel (n / 10) ((b'0' + n % 10) ∷ rest) (λ x. cc))
]

pub to_text-nonempty : (n : ℕ) → to_text n ≢ []
unfolding to_text digits_before
to_text-nonempty n = elim (Bool-cases (n / 10 == 0)) [
  | inl e ↦ rw (e) (λ x. cc)
  | inr e ↦ rw (e) (digits_before-nonempty 19 (n / 10) ((b'0' + n % 10) ∷ []) (λ x. cc))
]

parse_digits-to_text :
    (limit n : ℕ) → n ≤ limit → n < 10 ^ 20 → parse_digits limit (some 0) (to_text n) ≡ some n
unfolding to_text parse_digits
parse_digits-to_text limit n h h' = parse_digits-digits_before limit 19 n [] h h'

pub parse_unsigned-to_text :
    (limit n : ℕ) → n ≤ limit → n < 10 ^ 20 → parse_unsigned limit (to_text n) ≡ some n
parse_unsigned-to_text limit n h h' =
    parse_unsigned-digits limit (to_text n) (to_text-IsDigit n) (to_text-nonempty n)
    ∙ parse_digits-to_text limit n h h'
