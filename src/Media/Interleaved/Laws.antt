-- ===== src/Media/Interleaved/Laws.antt =====
-- src/rtsp/interleaved.rs: what a client reads back.
use buddy3d_proxy.Prelude.{
  ℕ, zero, suc, ◌+◌, ◌*◌, ◌/◌, ◌%◌, ◌≤◌, ◌<◌, ltb, ◌==◌, if◌then◌else◌, Option, none, some, List,
  [], ◌∷◌, ◌++◌, length, take, drop, All, ◌≡◌, refl, arith, append_assoc, append-nil, length-append,
  take-length, drop-length,
}
use buddy3d_proxy.Media.Interleaved.{max_frame_payload, encode_frame}

abbrev cons_frame : ℕ × List ℕ → Option (List (ℕ × List ℕ)) → Option (List (ℕ × List ℕ))
cons_frame f none = none
cons_frame f (some fs) = some (f ∷ fs)

-- The frames that a stream of bytes holds by RFC 2326; `none` if it ends inside one, or has none.
unfoldable pub read_frames : ℕ → List ℕ → Option (List (ℕ × List ℕ))
read_frames fuel [] = some []
read_frames zero (magic ∷ rest) = none
read_frames (suc fuel) (magic ∷ channel ∷ hi ∷ lo ∷ rest) =
    let len = hi * 256 + lo in
    let more = cons_frame (channel, take len rest) (read_frames fuel (drop len rest)) in
    if magic == b'$' then (if ltb (length rest) len then none else more) else none
read_frames (suc fuel) _ = none

-- The frames sent one after the other behind what `buf` holds.
unfoldable pub encode_all : List ℕ → List (ℕ × List ℕ) → Option (List ℕ)
encode_all buf [] = some buf
encode_all buf ((channel, payload) ∷ frames) = elim (encode_frame buf channel payload) [
  | none ↦ none
  | some buf' ↦ encode_all buf' frames
]

abbrev pub wire : List (ℕ × List ℕ) → List ℕ
wire [] = []
wire ((channel, payload) ∷ frames) =
    (b'$' ∷ channel ∷ (length payload / 256) ∷ (length payload % 256) ∷ payload) ++ wire frames

abbrev pub Fits : ℕ × List ℕ → Type 0
Fits (channel, payload) = length payload ≤ max_frame_payload

encode_all-wire :
    (frames : List (ℕ × List ℕ)) (buf : List ℕ)
    → All Fits frames
    → encode_all buf frames ≡ some (buf ++ wire frames)
unfolding encode_all encode_frame
encode_all-wire [] buf h = rw append-nil refl
encode_all-wire ((channel, payload) ∷ frames) buf (h, hs) =
    let len = length payload in
    let frame = b'$' ∷ channel ∷ (len / 256) ∷ (len % 256) ∷ payload in
    ground (arith, encode_all-wire frames (buf ++ frame) hs, append_assoc buf frame (wire frames))

pub read_frames-wire :
    (frames : List (ℕ × List ℕ)) (fuel : ℕ)
    → All Fits frames
    → length (wire frames) ≤ fuel
    → read_frames fuel (wire frames) ≡ some frames
unfolding read_frames
read_frames-wire [] zero hs h = refl
read_frames-wire [] (suc fuel) hs h = refl
read_frames-wire ((channel, payload) ∷ frames) zero hs h = absurd (omega arith)
read_frames-wire ((channel, payload) ∷ frames) (suc fuel) (_, hs) h =
    rw (whole, take-length, drop-length)
      (ground (
        arith,
        length-append payload (wire frames),
        read_frames-wire frames fuel hs (omega (arith, length-append payload (wire frames))),
      ))
  where
    whole : length payload / 256 * 256 + length payload % 256 ≡ length payload
    whole = omega arith

-- A client that knows RFC 2326 reads back the frames that were sent, each with its channel and its
-- payload, and nothing else. No payload is longer than a frame holds.
read_frames-encode_all :
    (frames : List (ℕ × List ℕ))
    → All Fits frames
    → (bytes : List ℕ) × (encode_all [] frames ≡ some bytes)
      × (read_frames (length bytes) bytes ≡ some frames)
read_frames-encode_all frames hs =
    (wire frames, encode_all-wire frames [] hs, read_frames-wire frames _ hs (omega arith))

-- A payload of any greater length panics, whatever the buffer holds.
pub encode_frame_too_long :
    (buf payload : List ℕ) (channel : ℕ)
    → max_frame_payload < length payload
    → encode_frame buf channel payload ≡ none
unfolding encode_frame
encode_frame_too_long buf payload channel h = ground arith
