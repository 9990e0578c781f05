-- ===== src/Media/Reassembler.antt =====
-- src/snapshot/h264.rs: RTP payloads to H.264 NAL units (RFC 6184). A byte is a number under 256 and
-- a sequence number one under 2^16.
pub mod Fragments
pub mod Aggregates
mod Examples
use Prim.Native.Nat.{bit_and, bit_or}
use buddy3d_proxy.Prelude.{
  ℕ, zero, suc, ◌+◌, ◌-◌, ◌*◌, ◌%◌, ◌^◌, ltb, leb, ◌==◌, if◌then◌else◌, Bool, true, false, not,
  ◌&&◌, Option, none, some, List, [], ◌∷◌, ◌++◌, length, take, drop,
}

pub record Nal : Type 0 where
  pub data_bytes : List ℕ

abbrev first_or_zero : List ℕ → ℕ
first_or_zero [] = 0
first_or_zero (b ∷ bs) = b

unfoldable pub unit_type : Nal → ℕ
unit_type n = bit_and (first_or_zero n.data_bytes) 0x1F

unfoldable pub is_idr : Nal → Bool
unfolding unit_type
is_idr n = unit_type n == 5

pub record Reassembler : Type 0 where
  pub fu_a_buf : Option (List ℕ)
  pub fu_a_nal_header : ℕ
  pub last_seq : Option ℕ

unfoldable pub new : Reassembler
new = record { fu_a_buf = none; fu_a_nal_header = 0; last_seq = none }

abbrev pub next_seq : ℕ → ℕ
next_seq seq = (seq + 1) % 2 ^ 16

-- The sequence check, and the note of the last sequence number. A buffer that is not there is not
-- changed by dropping it.
unfoldable pub drop_on_gap : Option ℕ → Reassembler → ℕ → Reassembler
drop_on_gap none r seq = r
drop_on_gap (some prev) r seq =
    if not (seq == next_seq prev) then record r { fu_a_buf = none } else r

unfoldable pub observe : Reassembler → ℕ → Reassembler
unfolding drop_on_gap
observe r seq = let r' = drop_on_gap r.last_seq r seq in record r' { last_seq = some seq }

-- The loop of STAP-A over what is left of the payload; each round takes two bytes at least.
unfoldable pub split_aggregate : ℕ → List ℕ → List Nal
split_aggregate zero rest = []
split_aggregate (suc fuel) [] = []
split_aggregate (suc fuel) (hi ∷ []) = []
split_aggregate (suc fuel) (hi ∷ lo ∷ rest) =
    let len = hi * 256 + lo in
    let more = record { data_bytes = take len rest } ∷ split_aggregate fuel (drop len rest) in
    if ltb (length rest) len then [] else more

-- The body of a fragment behind its two header bytes.
unfoldable pub continue_fragment :
    Reassembler → Option (List ℕ) → Bool → List ℕ → Reassembler × List Nal
continue_fragment r none end bytes = (r, [])
continue_fragment r (some buf) end bytes =
    let joined = buf ++ bytes in
    if end
    then (record r { fu_a_buf = none }, record { data_bytes = joined } ∷ [])
    else (record r { fu_a_buf = some joined }, [])

unfoldable pub push_fragment : Reassembler → ℕ → List ℕ → Reassembler × List Nal
unfolding continue_fragment
push_fragment r nal_header [] = (r, [])
push_fragment r nal_header (fu_header ∷ bytes) =
    let start = not (bit_and fu_header 0x80 == 0) in
    let end = not (bit_and fu_header 0x40 == 0) in
    let original_type = bit_and fu_header 0x1F in
    let header = bit_or (bit_and nal_header 0xE0) original_type in
    if start
    then (record r { fu_a_nal_header = header; fu_a_buf = some (header ∷ bytes) }, [])
    else continue_fragment r r.fu_a_buf end bytes

-- `Reassembler::push`
unfoldable pub push : Reassembler → List ℕ → ℕ → Reassembler × List Nal
unfolding observe push_fragment
push r [] seq = (r, [])
push r (nal_header ∷ rest) seq =
    let r' = observe r seq in
    let kind = bit_and nal_header 0x1F in
    if leb 1 kind && leb kind 23
    then (r', record { data_bytes = nal_header ∷ rest } ∷ [])
    else if kind == 24
    then (r', split_aggregate (length rest) rest)
    else if kind == 28
    then push_fragment r' nal_header rest
    else (r', [])
