-- ===== src/Prusa/Signaling/Client/Examples.antt =====
-- src/prusa/signaling/client.rs: two drivers on one event.
use buddy3d_proxy.Prelude.{◌≡◌, refl, true, some, [], ◌∷◌, arith}
use buddy3d_proxy.Prelude.Text.{Text, codes}
use buddy3d_proxy.Prelude.Results.{Result, failure}
use buddy3d_proxy.Prusa.Signaling.Json.Toy.{toy}
use buddy3d_proxy.Prusa.Signaling.Engineio.{OpenPayload}
use buddy3d_proxy.Prusa.Signaling.Socketio.{event_args, placeholders_from, placeholder}
use buddy3d_proxy.Prusa.Signaling.Correlator.{new}
use buddy3d_proxy.Prusa.Signaling.Correlator.RoundTrip.{IsReadBack}
use buddy3d_proxy.Prusa.Signaling.Client.{
  Driver, outbound_event, inbound_event, submitted, drive, run, text_frame, binary_frame,
  take_ack_id,
}
use buddy3d_proxy.Prusa.Signaling.Client.Received.{arrivals, run-drive}

abbrev no_open : Text → Result Text OpenPayload
no_open s = failure (codes "not an object")

abbrev sender : Driver
sender = record { correlator = new; next_ack_id = 4 }

auth-IsReadBack : IsReadBack toy (codes "client_authentication") 1
unfolding event_args placeholders_from placeholder
auth-IsReadBack = record { more = _; bracket = refl; array = refl; named = refl }

run-drive_example :
    let t =
      drive toy no_open sender
        (submitted (some (outbound_event (codes "client_authentication") (8 ∷ 9 ∷ []) true)))
        3 in
    ((header : Text) × (t.written ≡ text_frame header ∷ binary_frame (8 ∷ 9 ∷ []) ∷ []))
    × (t.driver ≡ some (take_ack_id sender true).0)
    × ((run toy no_open sender (arrivals t.written)).delivered
        ≡ inbound_event (codes "client_authentication") (8 ∷ 9 ∷ []) ∷ [])
run-drive_example =
    run-drive toy no_open sender sender (codes "client_authentication") (8 ∷ 9 ∷ []) true 3
      (omega arith) (omega arith) refl auth-IsReadBack
