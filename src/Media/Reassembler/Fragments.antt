-- ===== src/Media/Reassembler/Fragments.antt =====
-- src/snapshot/h264.rs: FU-A fragments, whole and with a loss.
use buddy3d_proxy.Prelude.{
  ℕ, ◌+◌, ◌*◌, ◌/◌, ◌%◌, none, some, List, [], ◌∷◌, ◌++◌, ◌≡◌, ◌≢◌, ◌⊎◌, inl, refl, arith,
  append_assoc,
}
use buddy3d_proxy.Prelude.Bytes.{IsByte, low_five, high_three, top_bit, second_bit, join_parts}
use buddy3d_proxy.Media.Reassembler.{Nal, Reassembler, next_seq, push}

-- Payloads that arrive one after the other, the sequence number counting up from `seq`.
unfoldable pub push_all : Reassembler → List (List ℕ) → ℕ → Reassembler × List Nal
push_all r [] seq = (r, [])
push_all r (p ∷ ps) seq =
    let (r', nals) = push r p seq in
    let (r'', more) = push_all r' ps (next_seq seq) in (r'', nals ++ more)

-- How RFC 6184 cuts a unit with header byte `header` into fragments.
abbrev pub indicator : ℕ → ℕ
indicator header = header / 32 * 32 + 28

abbrev pub first_fragment : ℕ → List ℕ → List ℕ
first_fragment header bytes = indicator header ∷ (128 + header % 32) ∷ bytes

abbrev pub middle_fragment : ℕ → List ℕ → List ℕ
middle_fragment header bytes = indicator header ∷ (header % 32) ∷ bytes

abbrev pub last_fragment : ℕ → List ℕ → List ℕ
last_fragment header bytes = indicator header ∷ (64 + header % 32) ∷ bytes

-- The fragments behind the first: `middles`, then the last.
abbrev pub tail_fragments : ℕ → List (List ℕ) → List ℕ → List (List ℕ)
tail_fragments header [] last = last_fragment header last ∷ []
tail_fragments header (m ∷ ms) last = middle_fragment header m ∷ tail_fragments header ms last

abbrev pub joined : List (List ℕ) → List ℕ → List ℕ
joined [] last = last
joined (m ∷ ms) last = m ++ joined ms last

push_first :
    (r : Reassembler) (seq header : ℕ) (bytes : List ℕ)
    → IsByte header
    → push r (first_fragment header bytes) seq ≡ (
      record r { fu_a_buf = some (header ∷ bytes); fu_a_nal_header = header; last_seq = some seq },
      [],
    )
unfolding push
push_first r seq header bytes h = ground (
  arith,
  low_five (indicator header),
  high_three (indicator header),
  top_bit (128 + header % 32),
  low_five (128 + header % 32),
  join_parts header,
)

-- The state that waits for more of a unit, `prev` the last sequence number.
record IsOpen (r : Reassembler) (buf : List ℕ) (prev : ℕ) : Type 0 where
  buffered : r.fu_a_buf ≡ some buf
  last : r.last_seq ≡ some prev

push_middle :
    (r : Reassembler) (prev header : ℕ) (buf bytes : List ℕ)
    → IsOpen r buf prev
    → IsByte header
    → push r (middle_fragment header bytes) (next_seq prev)
      ≡ (record r { fu_a_buf = some (buf ++ bytes); last_seq = some (next_seq prev) }, [])
unfolding push
push_middle r prev header buf bytes o h =
    ground (arith, low_five (indicator header), top_bit (header % 32), second_bit (header % 32))

push_last :
    (r : Reassembler) (prev header : ℕ) (buf bytes : List ℕ)
    → IsOpen r buf prev
    → IsByte header
    → push r (last_fragment header bytes) (next_seq prev) ≡ (
      record r { fu_a_buf = none; last_seq = some (next_seq prev) },
      record { data_bytes = buf ++ bytes } ∷ [],
    )
unfolding push
push_last r prev header buf bytes o h =
    ground (
      arith,
      low_five (indicator header),
      top_bit (64 + header % 32),
      second_bit (64 + header % 32),
    )

-- One unit comes out, and no buffer stays.
pub record Emits (nal : List ℕ) (result : Reassembler × List Nal) : Type 0 where
  pub units : result.1 ≡ record { data_bytes = nal } ∷ []
  pub closed : result.0.fu_a_buf ≡ none

push_tail :
    (ms : List (List ℕ)) (r : Reassembler) (prev header : ℕ) (buf last : List ℕ)
    → IsOpen r buf prev
    → IsByte header
    → Emits (buf ++ joined ms last) (push_all r (tail_fragments header ms last) (next_seq prev))
unfolding push_all
push_tail [] r prev header buf last o h =
    rw (push_last r prev header buf last o h) (record { units = refl; closed = refl })
push_tail (m ∷ ms) r prev header buf last o h =
    rw (push_middle r prev header buf m o h, ← append_assoc)
      (let t =
          push_tail ms (record r { fu_a_buf = some (buf ++ m); last_seq = some (next_seq prev) })
            (next_seq prev) header (buf ++ m) last (record { buffered = refl; last = refl }) h in
        record { units = t.units; closed = t.closed })

-- A unit cut into fragments and received in order comes out whole, and alone, whatever state the
-- reassembler was in and whatever the sequence number starts from. The header is a byte.
pub push_all-fragments :
    (r : Reassembler) (seq header : ℕ) (first : List ℕ) (middles : List (List ℕ)) (last : List ℕ)
    → IsByte header
    → Emits
        (header ∷ first ++ joined middles last)
        (push_all r (first_fragment header first ∷ tail_fragments header middles last) seq)
unfolding push_all
push_all-fragments r seq header first middles last h = rw (push_first r seq header first h) (
    let t =
      push_tail middles
        (record r {
          fu_a_buf = some (header ∷ first);
          fu_a_nal_header = header;
          last_seq = some seq;
        })
        seq header (header ∷ first) last (record { buffered = refl; last = refl }) h in
    record { units = t.units; closed = t.closed })

-- Nothing is being put together, or the packet `seq` follows a gap.
abbrev pub IsOrphan : Reassembler → ℕ → Type 0
IsOrphan r seq =
    (r.fu_a_buf ≡ none) ⊎ ((prev : ℕ) × (r.last_seq ≡ some prev) × (seq ≢ next_seq prev))

-- No unit comes out, and no buffer is there.
pub record EmitsNothing (result : Reassembler × List Nal) : Type 0 where
  pub units : result.1 ≡ []
  pub closed : result.0.fu_a_buf ≡ none

push_orphan_middle :
    (r : Reassembler) (seq header : ℕ) (bytes : List ℕ)
    → IsOrphan r seq
    → IsByte header
    → EmitsNothing (push r (middle_fragment header bytes) seq)
unfolding push
push_orphan_middle r seq header bytes o h =
    ground (arith, low_five (indicator header), top_bit (header % 32), second_bit (header % 32))

push_orphan_last :
    (r : Reassembler) (seq header : ℕ) (bytes : List ℕ)
    → IsOrphan r seq
    → IsByte header
    → EmitsNothing (push r (last_fragment header bytes) seq)
unfolding push
push_orphan_last r seq header bytes o h =
    ground (
      arith,
      low_five (indicator header),
      top_bit (64 + header % 32),
      second_bit (64 + header % 32),
    )

-- When a fragment is lost, what is left of its unit is dropped: the remaining fragments, however
-- many, give no unit, and the buffer is empty behind them.
pub push_all-orphans :
    (middles : List (List ℕ)) (r : Reassembler) (seq header : ℕ) (last : List ℕ)
    → IsOrphan r seq
    → IsByte header
    → EmitsNothing (push_all r (tail_fragments header middles last) seq)
unfolding push_all
push_all-orphans [] r seq header last o h =
    let p = push_orphan_last r seq header last o h in
    record { units = rw p.units refl; closed = p.closed }
push_all-orphans (m ∷ ms) r seq header last o h =
    let p = push_orphan_middle r seq header m o h in
    let next = (push r (middle_fragment header m) seq).0 in
    let rest = push_all-orphans ms next (next_seq seq) header last (inl p.closed) h in
    record { units = rw (p.units, rest.units) refl; closed = rest.closed }
