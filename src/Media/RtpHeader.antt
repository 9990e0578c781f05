-- ===== src/Media/RtpHeader.antt =====
-- src/rtsp/server.rs, `header_to_bytes`: an RTP header as it goes to a viewer. The record has the
-- fields that the function reads of the crate's `Header`. Fields of `u8`, `u16` and `u32` are
-- numbers under 2^8, 2^16 and 2^32.
pub mod Plain
pub mod Extended
mod Examples
use Prim.Native.Nat.{bit_and, bit_or}
use buddy3d_proxy.Prelude.{
  ℕ, zero, suc, ◌+◌, ◌*◌, ◌/◌, ◌%◌, ◌^◌, ◌==◌, if◌then◌else◌, Bool, true, false, List, [], ◌∷◌,
  ◌++◌, length,
}

pub record Extension : Type 0 where
  pub id : ℕ
  pub payload : List ℕ

pub record Header : Type 0 where
  pub version : ℕ
  pub padding : Bool
  pub extension : Bool
  pub marker : Bool
  pub payload_type : ℕ
  pub sequence_number : ℕ
  pub timestamp : ℕ
  pub ssrc : ℕ
  pub csrc : List ℕ
  pub extension_profile : ℕ
  pub extensions : List Extension

-- `to_be_bytes` of a `u16` and of a `u32`
abbrev pub be16 : ℕ → List ℕ
be16 n = (n / 256 % 256) ∷ (n % 256) ∷ []

abbrev pub be32 : ℕ → List ℕ
be32 n = (n / 2 ^ 24 % 256) ∷ (n / 2 ^ 16 % 256) ∷ (n / 256 % 256) ∷ (n % 256) ∷ []

unfoldable pub first_byte : Header → ℕ
first_byte h =
    let first = bit_and h.version 0x3 * 2 ^ 6 % 256 in
    let padded = if h.padding then bit_or first 0x20 else first in
    let extended = if h.extension then bit_or padded 0x10 else padded in
    bit_or extended (bit_and (length h.csrc % 256) 0x0F)

unfoldable pub second_byte : Header → ℕ
second_byte h =
    let second = bit_and h.payload_type 0x7F in if h.marker then bit_or second 0x80 else second

unfoldable pub push_csrc : List ℕ → List ℕ → List ℕ
push_csrc buf [] = buf
push_csrc buf (c ∷ cs) = push_csrc (buf ++ be32 c) cs

-- The length that the header declares for its extensions, in words.
unfoldable pub payload_len_words : List Extension → ℕ
payload_len_words [] = 0
payload_len_words (e ∷ es) = (length e.payload + 1 + 3) / 4 + payload_len_words es

-- `while buf.len() % 4 != 0`: three rounds are the most that it takes.
unfoldable pub pad : ℕ → List ℕ → List ℕ
pad zero buf = buf
pad (suc fuel) buf =
    let more = pad fuel (buf ++ (0 ∷ [])) in if length buf % 4 == 0 then buf else more

unfoldable pub push_extensions : List ℕ → List Extension → List ℕ
unfolding pad
push_extensions buf [] = buf
push_extensions buf (e ∷ es) =
    push_extensions (pad 3 (buf ++ (e.id ∷ (length e.payload % 256) ∷ e.payload))) es

unfoldable pub header_to_bytes : Header → List ℕ
header_to_bytes h =
    let fixed =
      first_byte h
      ∷ second_byte h
      ∷ (be16 h.sequence_number ++ (be32 h.timestamp ++ be32 h.ssrc)) in
    let buf = push_csrc fixed h.csrc in
    let extended =
      push_extensions
        (buf ++ (be16 h.extension_profile ++ be16 (payload_len_words h.extensions % 2 ^ 16)))
        h.extensions in
    if h.extension then extended else buf
