-- ===== src/Prusa/Commands.antt =====
-- src/prusa/commands.rs: the payloads of camera commands in the wire format of protocol buffers. A
-- field number is a `u32`, a length and a varint's value a `u64`.
pub mod RoundTrip
pub mod Fields
pub mod Quality
mod Examples
use Prim.Native.Nat.{bit_or}
use buddy3d_proxy.Prelude.{
  ℕ, zero, suc, ◌*◌, ◌/◌, ◌%◌, ◌^◌, ltb, if◌then◌else◌, List, [], ◌∷◌, ◌++◌, length,
}
use buddy3d_proxy.Prelude.Text.{Text}

-- The loop of `encode_varint`; a value of 64 bits takes nine rounds at most.
unfoldable pub push_varint : ℕ → List ℕ → ℕ → List ℕ
push_varint zero buf value = buf ++ (value % 256 ∷ [])
push_varint (suc fuel) buf value =
    let more = push_varint fuel (buf ++ (bit_or (value % 256) 0x80 ∷ [])) (value / 2 ^ 7) in
    if ltb value 0x80 then buf ++ (value % 256 ∷ []) else more

unfoldable pub encode_varint : List ℕ → ℕ → List ℕ
unfolding push_varint
encode_varint buf value = push_varint 9 buf value

-- `field_num << 3` in 32 bits
unfoldable pub encode_camera_trigger : ℕ → Text → List ℕ
encode_camera_trigger field_num token =
    let tag = field_num * 2 ^ 3 % 2 ^ 32 in
    let buf = encode_varint (encode_varint [] tag) 1 in
    encode_varint (encode_varint buf (bit_or (11 * 2 ^ 3) 2)) (length token) ++ token

unfoldable pub encode_set_mode : ℕ → Text → List ℕ
encode_set_mode mode token =
    let sub = encode_varint (encode_varint [] (bit_or (4 * 2 ^ 3) 0)) mode in
    let buf = encode_varint (encode_varint [] (bit_or (3 * 2 ^ 3) 2)) (length sub) ++ sub in
    encode_varint (encode_varint buf (bit_or (6 * 2 ^ 3) 2)) (length token) ++ token

unfoldable pub encode_set_quality : ℕ → Text → List ℕ
encode_set_quality quality token =
    let sub = encode_varint (encode_varint [] (bit_or (1 * 2 ^ 3) 0)) quality in
    let buf = encode_varint (encode_varint [] (bit_or (4 * 2 ^ 3) 2)) 0 in
    let named = encode_varint (encode_varint buf (bit_or (6 * 2 ^ 3) 2)) (length token) ++ token in
    encode_varint (encode_varint named (bit_or (8 * 2 ^ 3) 2)) (length sub) ++ sub
