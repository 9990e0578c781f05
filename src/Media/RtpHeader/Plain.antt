-- ===== src/Media/RtpHeader/Plain.antt =====
-- src/rtsp/server.rs: a header with no extension, read back by RFC 3550.
use Prim.Native.Nat.{bit_and, bit_or}
use buddy3d_proxy.Prelude.{
  ℕ, zero, suc, ◌+◌, ◌*◌, ◌/◌, ◌%◌, ◌^◌, ◌<◌, ◌==◌, Bool, true, false, Option, none, some, List, [],
  ◌∷◌, ◌++◌, length, All, ◌≡◌, refl, ◌∙◌, sym, arith, append_assoc, append-nil,
}
use buddy3d_proxy.Prelude.Bytes.{agree_below, agree_below→eq}
use buddy3d_proxy.Media.RtpHeader.{
  Header, be16, be32, first_byte, second_byte, push_csrc, header_to_bytes,
}

-- Values that the fields' types can hold, at most fifteen sources, and no extension.
pub record IsPlain (h : Header) : Type 0 where
  pub version : h.version < 4
  pub payload_type : h.payload_type < 128
  pub sequence_number : h.sequence_number < 2 ^ 16
  pub timestamp : h.timestamp < 2 ^ 32
  pub ssrc : h.ssrc < 2 ^ 32
  pub sources : length h.csrc < 16
  pub csrc : All (λ c. c < 2 ^ 32) h.csrc
  pub no_extension : h.extension ≡ false

abbrev bit : Bool → ℕ
bit true = 1
bit false = 0

-- Version and number of sources in one index, for the tables.
first_plain : (i : ℕ) → i < 64 → bit_or (i / 16 * 2 ^ 6 % 256) (i % 16) ≡ i / 16 * 64 + i % 16
unfolding agree_below
first_plain = agree_below→eq _ _ 64 refl

first_padded :
    (i : ℕ)
    → i < 64
    → bit_or (bit_or (i / 16 * 2 ^ 6 % 256) 0x20) (i % 16) ≡ i / 16 * 64 + 32 + i % 16
unfolding agree_below
first_padded = agree_below→eq _ _ 64 refl

low_two : (b : ℕ) → b < 4 → bit_and b 0x3 ≡ b
unfolding agree_below
low_two = agree_below→eq _ _ 4 refl

low_four : (b : ℕ) → b < 16 → bit_and b 0x0F ≡ b
unfolding agree_below
low_four = agree_below→eq _ _ 16 refl

low_seven : (b : ℕ) → b < 128 → bit_and b 0x7F ≡ b
unfolding agree_below
low_seven = agree_below→eq _ _ 128 refl

marked : (b : ℕ) → b < 128 → bit_or b 0x80 ≡ b + 128
unfolding agree_below
marked = agree_below→eq _ _ 128 refl

first_byte_fields :
    (h : Header) → IsPlain h → first_byte h ≡ h.version * 64 + bit h.padding * 32 + length h.csrc
unfolding first_byte
first_byte_fields h p =
    let i : ℕ = h.version * 16 + length h.csrc in
    let v : i / 16 ≡ h.version = omega arith in
    let n : i % 16 ≡ length h.csrc = omega arith in
    let a = rw (v, n) at (first_plain i (omega arith)) in
    let b = rw (v, n) at (first_padded i (omega arith)) in
    ground (arith, low_two h.version, low_four (length h.csrc), a, b)

second_byte_fields : (h : Header) → IsPlain h → second_byte h ≡ bit h.marker * 128 + h.payload_type
unfolding second_byte
second_byte_fields h p = ground (arith, low_seven h.payload_type, marked h.payload_type)

-- RFC 3550: the fixed header, the sources that it counts, and the payload behind them.
abbrev value32 : ℕ → ℕ → ℕ → ℕ → ℕ
value32 a b c d = a * 2 ^ 24 + b * 2 ^ 16 + c * 256 + d

abbrev cons_source : ℕ → Option (List ℕ × List ℕ) → Option (List ℕ × List ℕ)
cons_source c none = none
cons_source c (some (cs, rest)) = some (c ∷ cs, rest)

unfoldable pub read_sources : ℕ → List ℕ → Option (List ℕ × List ℕ)
read_sources zero rest = some ([], rest)
read_sources (suc n) (a ∷ b ∷ c ∷ d ∷ rest) = cons_source (value32 a b c d) (read_sources n rest)
read_sources (suc n) _ = none

abbrev with_sources : Header → Option (List ℕ × List ℕ) → Option (Header × List ℕ)
with_sources h none = none
with_sources h (some (cs, rest)) = some (record h { csrc = cs }, rest)

unfoldable pub read_header : List ℕ → Option (Header × List ℕ)
unfolding read_sources
read_header (x ∷ y ∷ s1 ∷ s0 ∷ t3 ∷ t2 ∷ t1 ∷ t0 ∷ u3 ∷ u2 ∷ u1 ∷ u0 ∷ rest) =
    with_sources
      (record {
        version = x / 64;
        padding = x / 32 % 2 == 1;
        extension = x / 16 % 2 == 1;
        marker = y / 128 == 1;
        payload_type = y % 128;
        sequence_number = s1 * 256 + s0;
        timestamp = value32 t3 t2 t1 t0;
        ssrc = value32 u3 u2 u1 u0;
        csrc = [];
        extension_profile = 0;
        extensions = [];
      })
      (read_sources (x % 16) rest)
read_header _ = none

abbrev source_bytes : List ℕ → List ℕ
source_bytes [] = []
source_bytes (c ∷ cs) = be32 c ++ source_bytes cs

push_csrc_lem : (cs buf : List ℕ) → push_csrc buf cs ≡ buf ++ source_bytes cs
unfolding push_csrc
push_csrc_lem [] buf = sym (append-nil buf)
push_csrc_lem (c ∷ cs) buf =
    push_csrc_lem cs (buf ++ be32 c) ∙ append_assoc buf (be32 c) (source_bytes cs)

value32-be32 :
    (n : ℕ)
    → n < 2 ^ 32
    → value32 (n / 2 ^ 24 % 256) (n / 2 ^ 16 % 256) (n / 256 % 256) (n % 256) ≡ n
value32-be32 n h = omega arith

read_sources_lem :
    (cs rest : List ℕ)
    → All (λ c. c < 2 ^ 32) cs
    → read_sources (length cs) (source_bytes cs ++ rest) ≡ some (cs, rest)
unfolding read_sources
read_sources_lem [] rest hs = refl
read_sources_lem (c ∷ cs) rest (h, hs) = rw (value32-be32 c h, read_sources_lem cs rest hs) refl

plain_bytes :
    (h : Header) (payload : List ℕ)
    → IsPlain h
    → header_to_bytes h ++ payload
      ≡ first_byte h
        ∷ second_byte h
        ∷ (be16 h.sequence_number
            ++ (be32 h.timestamp ++ (be32 h.ssrc ++ (source_bytes h.csrc ++ payload))))
unfolding header_to_bytes
plain_bytes h payload p =
    let fixed =
      first_byte h
      ∷ second_byte h
      ∷ (be16 h.sequence_number ++ (be32 h.timestamp ++ be32 h.ssrc)) in
    ground (arith, push_csrc_lem h.csrc fixed)

-- A receiver that knows RFC 3550 reads back every field of a header without extension, and the
-- payload begins right behind it. The fields fit their types and there are at most fifteen sources.
pub read_header-header_to_bytes :
    (h : Header) (payload : List ℕ)
    → IsPlain h
    → read_header (header_to_bytes h ++ payload)
      ≡ some (record h { extension_profile = 0; extensions = [] }, payload)
unfolding read_header
read_header-header_to_bytes h payload p = rw (plain_bytes h payload p) (
    ground (
      arith,
      first_byte_fields h p,
      second_byte_fields h p,
      value32-be32 h.timestamp p.timestamp,
      value32-be32 h.ssrc p.ssrc,
      read_sources_lem h.csrc payload p.csrc,
    ))
