-- ===== src/Media/Reassembler/Examples.antt =====
-- src/snapshot/h264.rs: runs of its own tests, and the theorems at concrete packets.
use buddy3d_proxy.Prelude.{ℕ, ◌≡◌, refl, arith, List, [], ◌∷◌, some, map, inr}
use buddy3d_proxy.Media.Reassembler.{Reassembler, Nal, new, observe, push}
use buddy3d_proxy.Media.Reassembler.Fragments.{
  push_all, first_fragment, tail_fragments, Emits, EmitsNothing, push_all-fragments,
  push_all-orphans,
}
use buddy3d_proxy.Media.Reassembler.Aggregates.{aggregate, to_nal, push-aggregate}

-- `fu_a_gap_discards_in_progress_fragment`
abbrev gap_packets : List ℕ → List ℕ → Reassembler → List Nal
gap_packets start end r = (push (push r start 10).0 end 12).1

gap_discards : gap_packets (124 ∷ 133 ∷ 170 ∷ []) (124 ∷ 69 ∷ 187 ∷ []) new ≡ []
unfolding push new
gap_discards = refl

abbrev waiting : Reassembler
waiting = record { fu_a_buf = some (101 ∷ 170 ∷ []); fu_a_nal_header = 101; last_seq = some 65535 }

push_all-fragments_example : Emits (101 ∷ 1 ∷ 2 ∷ 3 ∷ 4 ∷ 5 ∷ 6 ∷ []) (
    push_all waiting
      (first_fragment 101 (1 ∷ 2 ∷ []) ∷ tail_fragments 101 ((3 ∷ 4 ∷ []) ∷ []) (5 ∷ 6 ∷ []))
      7)
push_all-fragments_example =
    push_all-fragments waiting 7 101 (1 ∷ 2 ∷ []) ((3 ∷ 4 ∷ []) ∷ []) (5 ∷ 6 ∷ []) (omega arith)

push_all-orphans_example :
    EmitsNothing (push_all waiting (tail_fragments 101 ((3 ∷ 4 ∷ []) ∷ []) (5 ∷ 6 ∷ [])) 1)
push_all-orphans_example =
    push_all-orphans ((3 ∷ 4 ∷ []) ∷ []) waiting 1 101 (5 ∷ 6 ∷ []) (inr (65535, refl, omega arith))
      (omega arith)

abbrev sps_and_pps : List (List ℕ)
sps_and_pps = (103 ∷ 16 ∷ 17 ∷ 18 ∷ []) ∷ (104 ∷ 32 ∷ 33 ∷ []) ∷ []

push-aggregate_example :
    push waiting (120 ∷ aggregate sps_and_pps) 50 ≡ (observe waiting 50, map to_nal sps_and_pps)
push-aggregate_example = push-aggregate waiting 3 50 sps_and_pps (omega arith)
