-- ===== src/Media/Interleaved.antt =====
-- src/rtsp/interleaved.rs: RTP over the RTSP connection (RFC 2326, 10.12).
pub mod Laws
mod Examples
use buddy3d_proxy.Prelude.{
  ℕ, ◌+◌, ◌-◌, ◌/◌, ◌%◌, ◌^◌, leb, if◌then◌else◌, Option, none, some, List, [], ◌∷◌, ◌++◌, length,
}

abbrev pub max_frame_payload : ℕ
max_frame_payload = 2 ^ 16 - 1

-- `encode_frame`; `none` is the panic on a payload that is too long.
unfoldable pub encode_frame : List ℕ → ℕ → List ℕ → Option (List ℕ)
encode_frame buf channel payload =
    let len = length payload in
    if leb len max_frame_payload
    then some (buf ++ (b'$' ∷ channel ∷ (len / 256) ∷ (len % 256) ∷ payload))
    else none
