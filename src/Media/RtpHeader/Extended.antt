-- ===== src/Media/RtpHeader/Extended.antt =====
-- src/rtsp/server.rs: how long a header with extensions is, and the length that it declares.
use buddy3d_proxy.Prelude.{
  ℕ, ◌+◌, ◌*◌, ◌/◌, ◌%◌, ◌^◌, ◌==◌, if◌then◌else◌, Bool, true, false, zero, suc, List, [], ◌∷◌,
  ◌++◌, length, drop, ◌<◌, ◌≡◌, refl, sym, ap, subst, ◌∙◌, arith, length-append, length-drop,
  drop-length, append_assoc, append-nil,
}
use buddy3d_proxy.Media.RtpHeader.{
  Header, Extension, be16, be32, first_byte, second_byte, push_csrc, payload_len_words, pad,
  push_extensions, header_to_bytes,
}

-- The loop pads to the next word: no more than three rounds are wanted.
length-pad : (buf : List ℕ) → length (pad 3 buf) ≡ (length buf + 3) / 4 * 4
unfolding pad
length-pad buf = ground (
  arith,
  length-append buf (0 ∷ []),
  length-append (buf ++ (0 ∷ [])) (0 ∷ []),
  length-append ((buf ++ (0 ∷ [])) ++ (0 ∷ [])) (0 ∷ []),
)

-- The extensions whose payload is one byte short of a word.
unfoldable pub short_count : List Extension → ℕ
short_count [] = 0
short_count (e ∷ es) = (if length e.payload % 4 == 3 then 1 else 0) + short_count es

length-push_extensions :
    (es : List Extension) (buf : List ℕ)
    → length buf % 4 ≡ 0
    → length (push_extensions buf es) ≡ length buf + 4 * (payload_len_words es + short_count es)
unfolding push_extensions payload_len_words short_count
length-push_extensions [] buf h = omega arith
length-push_extensions (e ∷ es) buf h =
    let entry = e.id ∷ (length e.payload % 256) ∷ e.payload in
    let next = pad 3 (buf ++ entry) in
    let grown : length next ≡ (length buf + (2 + length e.payload) + 3) / 4 * 4 =
      length-pad (buf ++ entry)
      ∙ ap (λ (n : ℕ). (n + 3) / 4 * 4) (length-append buf entry ∙ omega arith) in
    ground (arith, grown, length-push_extensions es next (omega (arith, grown)))

length-push_csrc : (cs buf : List ℕ) → length (push_csrc buf cs) ≡ length buf + 4 * length cs
unfolding push_csrc
length-push_csrc [] buf = omega arith
length-push_csrc (c ∷ cs) buf =
    omega (arith, length-push_csrc cs (buf ++ be32 c), length-append buf (be32 c))

-- A loop of the function only appends.
abbrev Grows : List ℕ → List ℕ → Type 0
Grows buf buf' = (tail : List ℕ) × (buf' ≡ buf ++ tail)

append-Grows : (a b c : List ℕ) (x : List ℕ) → b ≡ a ++ x → Grows b c → Grows a c
append-Grows a b c x e (tail, f) = (x ++ tail, f ∙ ap (λ l. l ++ tail) e ∙ append_assoc a x tail)

if-Grows :
    (t : Bool) (buf x y : List ℕ) → Grows buf x → Grows buf y → Grows buf (if t then x else y)
if-Grows true buf x y g h = g
if-Grows false buf x y g h = h

pad-Grows : (fuel : ℕ) (buf : List ℕ) → Grows buf (pad fuel buf)
unfolding pad
pad-Grows zero buf = ([], sym (append-nil buf))
pad-Grows (suc fuel) buf =
    if-Grows (length buf % 4 == 0) buf buf _ ([], sym (append-nil buf))
      (append-Grows buf (buf ++ (0 ∷ [])) _ (0 ∷ []) refl (pad-Grows fuel (buf ++ (0 ∷ []))))

push_extensions-Grows : (es : List Extension) (buf : List ℕ) → Grows buf (push_extensions buf es)
unfolding push_extensions
push_extensions-Grows [] buf = ([], sym (append-nil buf))
push_extensions-Grows (e ∷ es) buf =
    let entry = e.id ∷ (length e.payload % 256) ∷ e.payload in
    let (padding, padded) = pad-Grows 3 (buf ++ entry) in
    append-Grows buf (pad 3 (buf ++ entry)) _ (entry ++ padding)
      (padded ∙ append_assoc buf entry padding) (push_extensions-Grows es (pad 3 (buf ++ entry)))

-- A receiver's view, by RFC 3550: the words that the header declares for its extensions, from its
-- bytes and the number of its sources, and what it takes for media.
abbrev value16 : List ℕ → ℕ
value16 (a ∷ b ∷ rest) = a * 256 + b
value16 _ = 0

abbrev pub declared_words : ℕ → List ℕ → ℕ
declared_words sources bytes = value16 (drop (14 + 4 * sources) bytes)

abbrev pub media : ℕ → List ℕ → List ℕ
media sources bytes = drop (16 + 4 * sources + 4 * declared_words sources bytes) bytes

value16-be16 : (n : ℕ) (rest : List ℕ) → n < 2 ^ 16 → value16 (be16 n ++ rest) ≡ n
value16-be16 n rest h = omega (arith, h)

-- The words of a header's extensions stand where a receiver looks for them.
declared_words-append :
    (front tail bytes : List ℕ) (sources words : ℕ)
    → length front ≡ 14 + 4 * sources
    → words < 2 ^ 16
    → bytes ≡ front ++ (be16 words ++ tail)
    → declared_words sources bytes ≡ words
declared_words-append front tail bytes sources words n h e =
    ap (λ k. value16 (drop k bytes)) (sym n)
    ∙ ap (λ l. value16 (drop (length front) l)) e
    ∙ ap value16 (drop-length front (be16 words ++ tail))
    ∙ value16-be16 words tail h

abbrev IsShort : ℕ → ℕ → List ℕ → Type 0
IsShort n short bytes =
    (length bytes ≡ 16 + 4 * n + 4 * (declared_words n bytes + short))
    × (length (media n bytes) ≡ 4 * short)

push_extensions-IsShort :
    (front : List ℕ) (es : List Extension) (n : ℕ)
    → length front ≡ 14 + 4 * n
    → payload_len_words es < 2 ^ 16
    → IsShort n
        (short_count es)
        (push_extensions (front ++ be16 (payload_len_words es % 2 ^ 16)) es)
push_extensions-IsShort front es n h small =
    let words : ℕ = payload_len_words es in
    let start = front ++ be16 (words % 2 ^ 16) in
    let long : length start ≡ 16 + 4 * n =
      length-append front (be16 (words % 2 ^ 16)) ∙ omega (arith, h) in
    let (tail, grown) = push_extensions-Grows es start in
    let bytes = push_extensions start es in
    let laid_out = grown ∙ append_assoc front (be16 (words % 2 ^ 16)) tail in
    let declared =
      declared_words-append front tail bytes n (words % 2 ^ 16) h (omega arith) laid_out in
    let total = length-push_extensions es start (omega (arith, long)) in
    (
      omega (arith, declared, total, long, small),
      length-drop (16 + 4 * n + 4 * declared_words n bytes) bytes
          ∙ omega (arith, declared, total, long, small),
    )

if-IsShort :
    (b : Bool) (n short : ℕ) (x y : List ℕ)
    → b ≡ true
    → IsShort n short x
    → IsShort n short (if b then x else y)
if-IsShort true n short x y e h = h
if-IsShort false n short x y e h = ground (arith, e)

-- For a header with extensions that fill fewer than 2^16 words: a receiver that skips the words that
-- the header declares finds four more bytes in front of the media for each extension whose payload
-- is three bytes over a multiple of four, and the header is that much longer than it declares. So
-- the declared length is right exactly when there is no such extension.
pub length-header_to_bytes :
    (h : Header)
    → h.extension ≡ true
    → payload_len_words h.extensions < 2 ^ 16
    → let bytes : List ℕ = header_to_bytes h in
      let n : ℕ = length h.csrc in
      (length bytes ≡ 16 + 4 * n + 4 * (declared_words n bytes + short_count h.extensions))
      × (length (media n bytes) ≡ 4 * short_count h.extensions)
unfolding header_to_bytes
length-header_to_bytes h e small =
    let fixed =
      first_byte h
      ∷ second_byte h
      ∷ (be16 h.sequence_number ++ (be32 h.timestamp ++ be32 h.ssrc)) in
    let sources = push_csrc fixed h.csrc in
    let profile = be16 h.extension_profile in
    let declared = be16 (payload_len_words h.extensions % 2 ^ 16) in
    let front : length (sources ++ profile) ≡ 14 + 4 * length h.csrc =
      length-append sources profile ∙ omega (arith, length-push_csrc h.csrc fixed) in
    if-IsShort h.extension (length h.csrc) (short_count h.extensions) _ sources e (
      subst
        (λ l. IsShort (length h.csrc) (short_count h.extensions) (push_extensions l h.extensions))
        (append_assoc sources profile declared)
        (push_extensions-IsShort (sources ++ profile) h.extensions (length h.csrc) front small))
