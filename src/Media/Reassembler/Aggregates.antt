-- ===== src/Media/Reassembler/Aggregates.antt =====
-- src/snapshot/h264.rs: STAP-A packets and single units.
use buddy3d_proxy.Prelude.{
  ℕ, zero, suc, ◌+◌, ◌*◌, ◌/◌, ◌%◌, ◌<◌, ◌≤◌, List, [], ◌∷◌, ◌++◌, ◌≡◌, refl, arith, length, drop,
  length-append, take-length, drop-length, map, length-drop,
}
use buddy3d_proxy.Prelude.Bytes.{low_five}
use buddy3d_proxy.Media.Reassembler.{Nal, Reassembler, observe, split_aggregate, push}

-- How RFC 6184 packs units: each behind its length in two bytes.
abbrev pub aggregate : List (List ℕ) → List ℕ
aggregate [] = []
aggregate (u ∷ us) = (length u / 256) ∷ (length u % 256) ∷ (u ++ aggregate us)

abbrev pub to_nal : List ℕ → Nal
to_nal u = record { data_bytes = u }

split_aggregate_lem :
    (us : List (List ℕ)) (fuel : ℕ)
    → length (aggregate us) ≤ fuel
    → split_aggregate fuel (aggregate us) ≡ map to_nal us
unfolding split_aggregate
split_aggregate_lem [] zero h = refl
split_aggregate_lem [] (suc fuel) h = refl
split_aggregate_lem (u ∷ us) zero h = absurd (omega arith)
split_aggregate_lem (u ∷ us) (suc fuel) h =
    rw (whole, take-length, drop-length)
      (ground (
        arith,
        length-append u (aggregate us),
        split_aggregate_lem us fuel (omega (arith, length-append u (aggregate us))),
      ))
  where
    whole : length u / 256 * 256 + length u % 256 ≡ length u
    whole = omega arith

-- A STAP-A packet gives the units that were packed into it, however many, in their order, and leaves a unit that is being put together to the sequence check alone.
pub push-aggregate :
    (r : Reassembler) (nri seq : ℕ) (us : List (List ℕ))
    → nri < 8
    → push r ((nri * 32 + 24) ∷ aggregate us) seq ≡ (observe r seq, map to_nal us)
unfolding push
push-aggregate r nri seq us h =
    ground (
      arith,
      low_five (nri * 32 + 24),
      split_aggregate_lem us (length (aggregate us)) (omega arith),
    )

-- The loop's result does not depend on the fuel, once it covers the bytes that are left.
pub split_aggregate_fuel :
    (f g : ℕ) (rest : List ℕ)
    → length rest ≤ f
    → length rest ≤ g
    → split_aggregate f rest ≡ split_aggregate g rest
unfolding split_aggregate
split_aggregate_fuel zero zero rest h k = refl
split_aggregate_fuel zero (suc g) [] h k = refl
split_aggregate_fuel zero (suc g) (b ∷ rest) h k = absurd (omega arith)
split_aggregate_fuel (suc f) zero [] h k = refl
split_aggregate_fuel (suc f) zero (b ∷ rest) h k = absurd (omega arith)
split_aggregate_fuel (suc f) (suc g) [] h k = refl
split_aggregate_fuel (suc f) (suc g) (hi ∷ []) h k = refl
split_aggregate_fuel (suc f) (suc g) (hi ∷ lo ∷ rest) h k =
    let len = hi * 256 + lo in
    rw
      (split_aggregate_fuel f g (drop len rest) (omega (arith, length-drop len rest))
        (omega (arith, length-drop len rest)))
      refl
