-- ===== src/Prusa/Commands/RoundTrip.antt =====
-- src/prusa/commands.rs: what a reader of protocol buffers gets from the payloads.
use Prim.Native.Nat.{bit_or}
use buddy3d_proxy.Prelude.{
  ℕ, zero, suc, ◌+◌, ◌-◌, ◌*◌, ◌/◌, ◌%◌, ◌^◌, ◌≤◌, ◌<◌, ◌≡◌, refl, sym, ap, ◌∙◌, ltb, if◌then◌else◌,
  true, false, Bool-cases, inl, inr, Option, none, some, List, [], ◌∷◌, ◌++◌, length, arith,
  append_assoc,
}
use buddy3d_proxy.Prelude.Bytes.{set_top_bit}
use buddy3d_proxy.Prelude.Text.{Text}
use buddy3d_proxy.Prusa.Commands.{push_varint, encode_varint}

-- One more group of seven bits in front.
abbrev group : ℕ → Option (ℕ × Text) → Option (ℕ × Text)
group b none = none
group b (some (value, rest)) = some (b - 128 + 128 * value, rest)

-- A varint and what stands behind it.
unfoldable pub read_varint : Text → Option (ℕ × Text)
read_varint [] = none
read_varint (b ∷ bs) =
    let more = group b (read_varint bs) in if ltb b 128 then some (b, bs) else more

-- What `fuel` rounds and the last byte can hold.
abbrev limit : ℕ → ℕ
limit zero = 128
limit (suc fuel) = 128 * limit fuel

pub push_varint-append :
    (fuel : ℕ) (buf : List ℕ) (value : ℕ)
    → push_varint fuel buf value ≡ buf ++ push_varint fuel [] value
unfolding push_varint
push_varint-append zero buf value = refl
push_varint-append (suc fuel) buf value = elim (Bool-cases (ltb value 0x80)) [
  | inl h ↦ rw (h) refl
  | inr h ↦
      let b = bit_or (value % 256) 0x80 in
      rw (h) (
        push_varint-append fuel (buf ++ (b ∷ [])) (value / 128)
        ∙ (append_assoc buf (b ∷ []) (push_varint fuel [] (value / 128))
            ∙ ap (◌++◌ buf) (sym (push_varint-append fuel (b ∷ []) (value / 128)))))
]

some-pair :
    (a b : ℕ) (rest : Text) → a ≡ b → ◌≡◌ {A = Option (ℕ × Text)} (some (a, rest)) (some (b, rest))
some-pair a b rest e = ap (λ n. some (n, rest)) e

read-last :
    (value : ℕ) (rest : Text) → value < 128 → read_varint (value % 256 ∷ rest) ≡ some (value, rest)
unfolding read_varint
read-last value rest h =
    let small : value % 256 ≡ value = omega (arith, h) in
    let b : ltb value 128 ≡ true = ground (arith, h) in rw (small, b) refl

read-more :
    (value : ℕ) (bytes rest : Text)
    → read_varint bytes ≡ some (value / 128, rest)
    → read_varint (bit_or (value % 256) 0x80 ∷ bytes) ≡ some (value, rest)
unfolding read_varint
read-more value bytes rest e =
    let b : ltb (value % 256 % 128 + 128) 128 ≡ false = ground arith in
    rw (set_top_bit (value % 256) (omega arith), b, e)
      (some-pair (value % 256 % 128 + 128 - 128 + 128 * (value / 128)) value rest (omega arith))

read_varint-push_varint :
    (fuel value : ℕ) (rest : Text)
    → value < limit fuel
    → read_varint (push_varint fuel [] value ++ rest) ≡ some (value, rest)
unfolding push_varint
read_varint-push_varint zero value rest h = read-last value rest h
read_varint-push_varint (suc fuel) value rest h = elim (Bool-cases (ltb value 0x80)) [
  | inl b ↦ rw (b) (read-last value rest (ground (arith, b)))
  | inr b ↦
      rw (b, push_varint-append fuel (bit_or (value % 256) 0x80 ∷ []) (value / 128))
        (read-more value (push_varint fuel [] (value / 128) ++ rest) rest
          (read_varint-push_varint fuel (value / 128) rest (omega (arith, h))))
]

-- A varint of 64 bits behind a buffer is read back, with nothing of what follows it.
pub read_varint-encode_varint :
    (value : ℕ) (rest : Text)
    → value < 2 ^ 64
    → read_varint (encode_varint [] value ++ rest) ≡ some (value, rest)
unfolding encode_varint
read_varint-encode_varint value rest h = read_varint-push_varint 9 value rest (omega (arith, h))

length-push_varint : (fuel : ℕ) (value : ℕ) → length (push_varint fuel [] value) ≤ fuel + 1
unfolding push_varint
length-push_varint zero value = omega arith
length-push_varint (suc fuel) value = elim (Bool-cases (ltb value 0x80)) [
  | inl b ↦ rw (b) omega arith
  | inr b ↦
      rw (b, push_varint-append fuel (bit_or (value % 256) 0x80 ∷ []) (value / 128)) omega
        (arith, length-push_varint fuel (value / 128))
]

-- A varint has ten bytes at most.
pub length-encode_varint : (value : ℕ) → length (encode_varint [] value) ≤ 10
unfolding encode_varint
length-encode_varint value = length-push_varint 9 value
