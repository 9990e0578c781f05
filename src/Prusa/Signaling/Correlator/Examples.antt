-- ===== src/Prusa/Signaling/Correlator/Examples.antt =====
-- src/prusa/signaling/socketio.rs: the correlator on concrete frames.
use buddy3d_proxy.Prelude.{◌≡◌, refl, some, List, [], ◌∷◌, map, arith}
use buddy3d_proxy.Prelude.Text.{Text, codes}
use buddy3d_proxy.Prusa.Signaling.Json.Toy.{toy}
use buddy3d_proxy.Prusa.Signaling.Socketio.{
  encode_binary_event, event_args, placeholders_from, placeholder,
}
use buddy3d_proxy.Prusa.Signaling.Correlator.{Frame, text, binary, feed_all, new}
use buddy3d_proxy.Prusa.Signaling.Correlator.Spec.{idle, next_all}
use buddy3d_proxy.Prusa.Signaling.Correlator.Refined.{feed_all-new}
use buddy3d_proxy.Prusa.Signaling.Correlator.RoundTrip.{
  announced, IsReadBack, feed_all-encode_binary_event,
}

abbrev payloads : List Text
payloads = (1 ∷ 2 ∷ []) ∷ (3 ∷ []) ∷ []

abbrev frames : List Frame
frames =
    text (encode_binary_event toy (codes "webrtc") 2 (some 7))
    ∷ binary (1 ∷ 2 ∷ [])
    ∷ text (codes "1")
    ∷ binary (3 ∷ [])
    ∷ binary []
    ∷ []

feed_all-new_example : feed_all toy new frames ≡ next_all toy idle frames
feed_all-new_example = feed_all-new toy frames

webrtc-IsReadBack : IsReadBack toy (codes "webrtc") 2
unfolding event_args placeholders_from placeholder
webrtc-IsReadBack = record { more = _; bracket = refl; array = refl; named = refl }

feed_all-encode_binary_event_example :
    feed_all toy new
      (text (encode_binary_event toy (codes "webrtc") 2 (some 7)) ∷ map binary payloads)
    ≡ announced 2 (codes "webrtc") payloads
feed_all-encode_binary_event_example =
    feed_all-encode_binary_event toy (codes "webrtc") payloads (some 7) (omega arith) (omega arith)
      webrtc-IsReadBack
