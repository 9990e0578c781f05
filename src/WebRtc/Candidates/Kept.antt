-- ===== src/WebRtc/Candidates/Kept.antt =====
-- src/webrtc_session.rs: no remote candidate is lost, also when a description that is refused is set.
use mathlib.Core.List.{Perm, perm_append_comm}
use mathlib.Core.List.Perm
use buddy3d_proxy.Prelude.{
  ◌≡◌, refl, sym, ap, subst, ◌∙◌, Bool, true, false, Bool-cases, inl, inr, ◌==◌, Option, none, some,
  List, [], ◌∷◌, ◌++◌, append-nil, append_assoc, arith,
}
use buddy3d_proxy.Prelude.Text.{Text}
use buddy3d_proxy.Prelude.Results.{Result, success, failure, Result-cases}
use buddy3d_proxy.Proto.{SdpBody, IceCandidateBody, WebRtcSignal}
use buddy3d_proxy.Prusa.Signaling.Session.{
  web_rtc_event, status_event, features_event, unknown_event, closed_event,
}
use buddy3d_proxy.WebRtc.{
  IceCandidateInit, WebRtcSession, new, Bodies, Answers, accept_offer, refused_offer, send_reply,
  answer_with, with_offer, set_offer, handle_offer, init_of, take_candidate, handle_candidate,
  handle_signal, Picked, signaling_event, outbound_signal, session_round, run_session,
  answer_signal,
}
use buddy3d_proxy.WebRtc.Candidates.{decoded, candidate_of, candidate_in, keeps_going, arrived}

-- The candidates that the peer connection has been given, and behind them those that wait
abbrev pub held : WebRtcSession → List IceCandidateInit
held s = s.given ++ s.pending_ice

same_perm : (xs ys : List IceCandidateInit) → xs ≡ ys → Perm xs ys
same_perm xs ys e = subst (λ l. Perm xs l) e (Perm.refl xs)

module _ (bodies : Bodies) (a : Answers) where
  send_reply-held :
      (s : WebRtcSession) (taken : Bool) (reply : WebRtcSignal)
      → held (send_reply s taken reply).0 ≡ held s
  send_reply-held s true reply = refl
  send_reply-held s false reply = refl

  answer_with-held :
      (s : WebRtcSession) (body : SdpBody) (answer : Result Text Text)
      → held (answer_with bodies s body a answer).0 ≡ held s
  answer_with-held s body (failure e) = refl
  answer_with-held s body (success sdp) = elim (Result-cases a.set_local) [
    | inl (done, e) ↦ rw (e) (send_reply-held s a.reply_taken (answer_signal bodies s sdp body.mid))
    | inr (m, e) ↦ rw (e) refl
  ]

  refused_offer-held :
      (s : WebRtcSession) (sdp : Text) (anyway : Bool) → held (refused_offer s sdp anyway) ≡ held s
  refused_offer-held s sdp true = refl
  refused_offer-held s sdp false = refl

  with_offer-held :
      (s : WebRtcSession) (body : SdpBody) (set : Result Text (Unit {0}))
      → held (with_offer bodies s body a set).0 ≡ held s
  unfolding accept_offer
  with_offer-held s body (failure e) = refused_offer-held s body.sdp a.set_anyway
  with_offer-held s body (success done) =
      answer_with-held (accept_offer s body.sdp) body a.create_answer ∙ append-nil (held s)

  set_offer-held :
      (s : WebRtcSession) (body : SdpBody) (offer : Result Text (Unit {0}))
      → held (set_offer bodies s body a offer).0 ≡ held s
  set_offer-held s body (failure e) = refl
  set_offer-held s body (success parsed) = with_offer-held s body a.set_remote

  handle_offer-held :
      (s : WebRtcSession) (sdp : Result Text SdpBody)
      → Perm (held (handle_offer bodies s a sdp).0) (held s ++ [])
  unfolding handle_offer
  handle_offer-held s (failure e) = same_perm _ _ (sym (append-nil (held s)))
  handle_offer-held s (success body) =
      same_perm _ _ (set_offer-held s body a.parse_offer ∙ sym (append-nil (held s)))

  take_candidate-held :
      (s : WebRtcSession) (init : IceCandidateInit) (description : Option Text)
      → Perm (held (take_candidate s init a description).0) (held s ++ (init ∷ []))
  take_candidate-held s init none =
      same_perm _ _ (sym (append_assoc s.given s.pending_ice (init ∷ [])))
  take_candidate-held s init (some sdp) =
      Perm.trans (same_perm _ _ (append_assoc s.given (init ∷ []) s.pending_ice)) (
        Perm.trans (Perm.append_left s.given (perm_append_comm (init ∷ []) s.pending_ice))
          (same_perm _ _ (sym (append_assoc s.given s.pending_ice (init ∷ [])))))

  handle_candidate-held :
      (s : WebRtcSession) (candidate : Result Text IceCandidateBody)
      → Perm (held (handle_candidate s a candidate).0) (held s ++ decoded candidate)
  unfolding handle_candidate
  handle_candidate-held s (failure e) = same_perm _ _ (sym (append-nil (held s)))
  handle_candidate-held s (success body) = take_candidate-held s (init_of body) s.remote_description

  handle_signal-held :
      (s : WebRtcSession) (signal : WebRtcSignal)
      → Perm (held (handle_signal bodies s signal a).0) (held s ++ candidate_of bodies signal)
  unfolding handle_signal candidate_of
  handle_signal-held s signal = elim (Bool-cases (signal.msg_type == 3)) [
    | inl e ↦
        let other : (signal.msg_type == 4) ≡ false = ground (arith, e) in
        rw (e, other) (handle_offer-held s (bodies.decode_sdp signal.body))
    | inr e ↦ elim (Bool-cases (signal.msg_type == 4)) [
      | inl e' ↦ rw (e, e') (handle_candidate-held s (bodies.decode_candidate signal.body))
      | inr e' ↦ rw (e, e') (same_perm _ _ (sym (append-nil (held s))))
    ]
  ]

untouched : (s : WebRtcSession) → Perm (held s) (held s ++ [])
untouched s = same_perm _ _ (sym (append-nil (held s)))

session_round-held :
    (bodies : Bodies) (s : WebRtcSession) (p : Picked)
    → ((session_round bodies s p).goes_on ≡ keeps_going p)
      × Perm (held (session_round bodies s p).session) (held s ++ candidate_in bodies p)
unfolding session_round candidate_in
session_round-held bodies s (signaling_event none a) = (refl, untouched s)
session_round-held bodies s (signaling_event (some (web_rtc_event signal)) a) =
    (refl, handle_signal-held bodies a s signal)
session_round-held bodies s (signaling_event (some (status_event status)) a) = (refl, untouched s)
session_round-held bodies s (signaling_event (some (features_event features)) a) =
    (refl, untouched s)
session_round-held bodies s (signaling_event (some (unknown_event name payload)) a) =
    (refl, untouched s)
session_round-held bodies s (signaling_event (some (closed_event reason)) a) = (refl, untouched s)
session_round-held bodies s (outbound_signal none ok) = (refl, untouched s)
session_round-held bodies s (outbound_signal (some out) true) = (refl, untouched s)
session_round-held bodies s (outbound_signal (some out) false) = (refl, untouched s)

run_session-held :
    (bodies : Bodies) (s : WebRtcSession) (picked : List Picked)
    → Perm (held (run_session bodies s picked).session) (held s ++ arrived bodies picked)
unfolding run_session arrived
run_session-held bodies s [] = untouched s
run_session-held bodies s (p ∷ rest) =
    let (on, kept) = session_round-held bodies s p in
    let s' = (session_round bodies s p).session in
    elim (Bool-cases (keeps_going p)) [
      | inl e ↦
          rw (on, e)
            (Perm.trans (run_session-held bodies s' rest) (
              Perm.trans (Perm.append_right (arrived bodies rest) kept) (
                same_perm _ _
                  (append_assoc (held s) (candidate_in bodies p) (arrived bodies rest)))))
      | inr e ↦
          rw (on, e)
            (Perm.trans kept
              (same_perm _ _ (ap (λ l. held s ++ l) (sym (append-nil (candidate_in bodies p))))))
    ]

-- Whatever the signaling brings until the session's loop ends, and whatever the peer connection answers,
-- even if it sets a description that it refuses: the candidates that it has been given and those
-- that wait are together the candidates that arrived, each as often, in some order.
pub run_session-perm :
    (bodies : Bodies) (camera_token session_id : Text) (picked : List Picked)
    → Perm
        (held (run_session bodies (new camera_token session_id) picked).session)
        (arrived bodies picked)
unfolding new
run_session-perm bodies camera_token session_id picked =
    run_session-held bodies (new camera_token session_id) picked
