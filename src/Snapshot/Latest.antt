-- ===== src/Snapshot/Latest.antt =====
-- src/snapshot/mod.rs: the units that a snapshot is made of.
use buddy3d_proxy.Prelude.{
  ℕ, ◌≡◌, refl, ap, ◌∙◌, ◌==◌, if◌then◌else◌, false, Bool-cases, inl, inr, Option, some, List, [],
  ◌∷◌, ◌++◌, arith,
}
use buddy3d_proxy.Media.Reassembler as Reassembler
use buddy3d_proxy.Media.Reassembler.{Nal, Reassembler, unit_type, push}
use buddy3d_proxy.Snapshot.{
  LatestParams, RtpReceived, packet, lagged, channel_closed, store_unit, store_units, consume_rtp,
}

-- The units that the packets carry, until the channel is closed.
unfoldable pub units_of : Reassembler → List RtpReceived → List Nal
units_of r [] = []
units_of r (packet payload seq ∷ rest) =
    let (r', nals) = push r payload seq in nals ++ units_of r' rest
units_of r (lagged n ∷ rest) = units_of Reassembler.new rest
units_of r (channel_closed ∷ rest) = []

-- The last unit of a type, or the one before.
unfoldable pub last_unit : ℕ → Option (List ℕ) → List Nal → Option (List ℕ)
last_unit kind before [] = before
last_unit kind before (nal ∷ nals) =
    last_unit kind (if unit_type nal == kind then some nal.data_bytes else before) nals

last_unit-append :
    (kind : ℕ) (before : Option (List ℕ)) (xs ys : List Nal)
    → last_unit kind before (xs ++ ys) ≡ last_unit kind (last_unit kind before xs) ys
unfolding last_unit
last_unit-append kind before [] ys = refl
last_unit-append kind before (x ∷ xs) ys =
    last_unit-append kind (if unit_type x == kind then some x.data_bytes else before) xs ys

abbrev pub latest_of : LatestParams → List Nal → LatestParams
latest_of g nals = record {
  sps = last_unit 7 g.sps nals;
  pps = last_unit 8 g.pps nals;
  idr = last_unit 5 g.idr nals;
}

store_unit-latest_of : (g : LatestParams) (nal : Nal) → store_unit g nal ≡ latest_of g (nal ∷ [])
unfolding store_unit last_unit
store_unit-latest_of g nal =
    let kind = unit_type nal in
    elim (Bool-cases (kind == 7)) [
      | inl e ↦
          let e8 : (kind == 8) ≡ false = ground (arith, e) in
          let e5 : (kind == 5) ≡ false = ground (arith, e) in rw (e, e8, e5) refl
      | inr e ↦ elim (Bool-cases (kind == 8)) [
        | inl e8 ↦ let e5 : (kind == 5) ≡ false = ground (arith, e8) in rw (e, e8, e5) refl
        | inr e8 ↦ elim (Bool-cases (kind == 5)) [
          | inl e5 ↦ rw (e, e8, e5) refl
          | inr e5 ↦ rw (e, e8, e5) refl
        ]
      ]
    ]

store_units-latest_of : (g : LatestParams) (nals : List Nal) → store_units g nals ≡ latest_of g nals
unfolding store_units last_unit
store_units-latest_of g [] = refl
store_units-latest_of g (nal ∷ nals) =
    store_units-latest_of (store_unit g nal) nals
    ∙ ap (λ g'. latest_of g' nals) (store_unit-latest_of g nal)

latest_of-append :
    (g : LatestParams) (xs ys : List Nal) → latest_of (latest_of g xs) ys ≡ latest_of g (xs ++ ys)
latest_of-append g xs ys =
    rw
      (
        last_unit-append 7 g.sps xs ys,
        last_unit-append 8 g.pps xs ys,
        last_unit-append 5 g.idr xs ys,
      )
      refl

-- What a consumer leaves for the next snapshot, from any packets, losses and an end of the channel:
-- of each of the three types the last unit that the packets carried, or what was there before when
-- none came.
pub consume_rtp-latest_of :
    (r : Reassembler) (g : LatestParams) (arrivals : List RtpReceived)
    → (consume_rtp r g arrivals).1 ≡ latest_of g (units_of r arrivals)
unfolding consume_rtp units_of last_unit
consume_rtp-latest_of r g [] = refl
consume_rtp-latest_of r g (packet payload seq ∷ rest) =
    let (r', nals) = push r payload seq in
    consume_rtp-latest_of r' (store_units g nals) rest
    ∙ ap (λ g'. latest_of g' (units_of r' rest)) (store_units-latest_of g nals)
    ∙ latest_of-append g nals (units_of r' rest)
consume_rtp-latest_of r g (lagged n ∷ rest) = consume_rtp-latest_of Reassembler.new g rest
consume_rtp-latest_of r g (channel_closed ∷ rest) = refl
