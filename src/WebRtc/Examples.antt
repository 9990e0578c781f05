-- ===== src/WebRtc/Examples.antt =====
-- src/webrtc_session.rs: a session on concrete signals.
use mathlib.Core.List.{Perm}
use buddy3d_proxy.WebRtc.Candidates.Kept.{held, run_session-perm}
use buddy3d_proxy.Prelude.{ℕ, ◌≡◌, refl, true, false, none, some, List, [], ◌∷◌, length}
use buddy3d_proxy.Prelude.Text.{Text, codes}
use buddy3d_proxy.Prelude.Results.{success, failure}
use buddy3d_proxy.Proto.{WebRtcSignal}
use buddy3d_proxy.Prusa.Signaling.Session.{web_rtc_event, closed_event}
use buddy3d_proxy.WebRtc.{
  new, handle_candidate, handle_offer, accept_offer, Bodies, Answers, Picked, signaling_event,
  outbound_signal, run_session,
}
use buddy3d_proxy.WebRtc.Candidates.{arrived, HasTaken, run_session-new}

abbrev plain : Bodies
plain = record {
  decode_sdp = λ s. success (record { sdp = s; mid = [] });
  decode_candidate = λ s. success (record { candidate = s; stream_id = codes "0" });
  encode_sdp = λ b. b.sdp;
  encode_candidate = λ b. b.candidate;
}

abbrev answers : Answers
answers = record {
  parse_offer = success tt;
  set_remote = success tt;
  set_anyway = false;
  create_answer = success (codes "answer");
  set_local = success tt;
  add_candidate = failure (codes "late");
  reply_taken = true;
}

abbrev signal : ℕ → Text → WebRtcSignal
signal msg_type body = record {
  token = [];
  session_id = [];
  peer_id = [];
  body = body;
  msg_type = msg_type;
  direction = 1;
  ice_config = none;
}

-- A candidate before the offer, the offer, the answer on its way, and a candidate behind it
abbrev picked : List Picked
picked =
    signaling_event (some (web_rtc_event (signal 4 (codes "a=one")))) answers
    ∷ signaling_event (some (web_rtc_event (signal 3 (codes "offer")))) answers
    ∷ outbound_signal (some (signal 2 [])) true
    ∷ signaling_event (some (web_rtc_event (signal 4 (codes "two")))) answers
    ∷ signaling_event (some (closed_event [])) answers
    ∷ signaling_event (some (web_rtc_event (signal 4 (codes "three")))) answers
    ∷ []

two_given : length (run_session plain (new [] []) picked).session.given ≡ 2
unfolding run_session new handle_candidate handle_offer accept_offer
two_given = refl

run_session-new_example :
    HasTaken (arrived plain picked) (run_session plain (new [] []) picked).session
run_session-new_example =
    run_session-new plain [] [] picked (refl, (refl, (tt, (refl, (refl, (refl, tt))))))

-- A candidate before an offer that is refused but set, and a candidate behind it
abbrev picked_refused : List Picked
picked_refused =
    signaling_event (some (web_rtc_event (signal 4 (codes "a=one")))) answers
    ∷ signaling_event (some (web_rtc_event (signal 3 (codes "offer"))))
        (record answers { set_remote = failure (codes "late"); set_anyway = true })
    ∷ signaling_event (some (web_rtc_event (signal 4 (codes "two")))) answers
    ∷ []

one_waits : length (run_session plain (new [] []) picked_refused).session.pending_ice ≡ 1
unfolding run_session new handle_candidate handle_offer
one_waits = refl

run_session-perm_example :
    Perm
      (held (run_session plain (new [] []) picked_refused).session)
      (arrived plain picked_refused)
run_session-perm_example = run_session-perm plain [] [] picked_refused
