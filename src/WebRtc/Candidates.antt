-- ===== src/WebRtc/Candidates.antt =====
-- src/webrtc_session.rs: the remote candidates on their way to the peer connection.
pub mod Kept
use buddy3d_proxy.Prelude.{
  ◌≡◌, refl, sym, ap, subst, ◌∙◌, Bool, true, false, Bool-cases, inl, inr, if◌then◌else◌, ◌==◌,
  Option, none, some, All, List, [], ◌∷◌, ◌++◌, append-nil, append_assoc, arith,
}
use buddy3d_proxy.Prelude.Text.{Text}
use buddy3d_proxy.Prelude.Results.{Result, success, failure, Result-cases}
use buddy3d_proxy.Proto.{SdpBody, IceCandidateBody, WebRtcSignal}
use buddy3d_proxy.Prusa.Signaling.Session.{
  web_rtc_event, status_event, features_event, unknown_event, closed_event,
}
use buddy3d_proxy.WebRtc.{
  IceCandidateInit, WebRtcSession, new, Bodies, Answers, accept_offer, refused_offer, send_reply,
  answer_with, with_offer, set_offer, handle_offer, init_of, take_candidate, handle_candidate,
  handle_signal, Picked, signaling_event, outbound_signal, session_round, run_session,
  answer_signal,
}

abbrev decoded : Result Text IceCandidateBody → List IceCandidateInit
decoded (failure e) = []
decoded (success body) = init_of body ∷ []

-- The candidate that a signal carries
unfoldable pub candidate_of : Bodies → WebRtcSignal → List IceCandidateInit
candidate_of bodies signal =
    if signal.msg_type == 4 then decoded (bodies.decode_candidate signal.body) else []

unfoldable pub candidate_in : Bodies → Picked → List IceCandidateInit
candidate_in bodies (signaling_event (some (web_rtc_event signal)) a) = candidate_of bodies signal
candidate_in bodies _ = []

-- A closed channel, a closed signaling or a failed send ends the loop.
abbrev keeps_going : Picked → Bool
keeps_going (signaling_event none a) = false
keeps_going (signaling_event (some (closed_event reason)) a) = false
keeps_going (signaling_event (some _) a) = true
keeps_going (outbound_signal (some out) true) = true
keeps_going _ = false

-- The candidates that arrive before the loop ends, in their order
unfoldable pub arrived : Bodies → List Picked → List IceCandidateInit
arrived bodies [] = []
arrived bodies (p ∷ rest) =
    let more = arrived bodies rest in candidate_in bodies p ++ (if keeps_going p then more else [])

-- A candidate waits only while there is no remote description.
abbrev IsDrained : Option Text → List IceCandidateInit → Type 0
IsDrained none pending = Unit {0}
IsDrained (some sdp) pending = pending ≡ []

-- The candidates `xs` have come, behind those before them, and wait only if they have to.
abbrev pub HasTaken : List IceCandidateInit → WebRtcSession → Type 0
HasTaken xs s = (s.given ++ s.pending_ice ≡ xs) × IsDrained s.remote_description s.pending_ice

-- A description that the peer connection refuses is not set.
abbrev pub RefusesWhole : Picked → Type 0
RefusesWhole (signaling_event event a) = a.set_anyway ≡ false
RefusesWhole (outbound_signal out ok) = Unit {0}

module _ (bodies : Bodies) (a : Answers) (whole : a.set_anyway ≡ false) where
  nothing-HasTaken :
      (xs : List IceCandidateInit) (s : WebRtcSession) → HasTaken xs s → HasTaken (xs ++ []) s
  nothing-HasTaken xs s (e, d) = (e ∙ sym (append-nil xs), d)

  accept_offer-HasTaken :
      (xs : List IceCandidateInit) (s : WebRtcSession) (sdp : Text)
      → HasTaken xs s
      → HasTaken xs (accept_offer s sdp)
  unfolding accept_offer
  accept_offer-HasTaken xs s sdp (e, d) = (append-nil (s.given ++ s.pending_ice) ∙ e, refl)

  send_reply-HasTaken :
      (xs : List IceCandidateInit) (s : WebRtcSession) (taken : Bool) (reply : WebRtcSignal)
      → HasTaken xs s
      → HasTaken xs (send_reply s taken reply).0
  send_reply-HasTaken xs s true reply h = h
  send_reply-HasTaken xs s false reply h = h

  answer_with-HasTaken :
      (xs : List IceCandidateInit) (s : WebRtcSession) (body : SdpBody) (answer : Result Text Text)
      → HasTaken xs s
      → HasTaken xs (answer_with bodies s body a answer).0
  answer_with-HasTaken xs s body (failure e) h = h
  answer_with-HasTaken xs s body (success sdp) h = elim (Result-cases a.set_local) [
    | inl (done, e) ↦
        rw (e) (send_reply-HasTaken xs s a.reply_taken (answer_signal bodies s sdp body.mid) h)
    | inr (m, e) ↦ rw (e) h
  ]

  refused_offer-HasTaken :
      (xs : List IceCandidateInit) (s : WebRtcSession) (sdp : Text) (anyway : Bool)
      → anyway ≡ false
      → HasTaken xs s
      → HasTaken xs (refused_offer s sdp anyway)
  refused_offer-HasTaken xs s sdp true e h = ground (arith, e)
  refused_offer-HasTaken xs s sdp false e h = h

  with_offer-HasTaken :
      (xs : List IceCandidateInit) (s : WebRtcSession) (body : SdpBody)
      (set : Result Text (Unit {0}))
      → HasTaken xs s
      → HasTaken xs (with_offer bodies s body a set).0
  with_offer-HasTaken xs s body (failure e) h =
      refused_offer-HasTaken xs s body.sdp a.set_anyway whole h
  with_offer-HasTaken xs s body (success done) h =
      answer_with-HasTaken xs (accept_offer s body.sdp) body a.create_answer
        (accept_offer-HasTaken xs s body.sdp h)

  set_offer-HasTaken :
      (xs : List IceCandidateInit) (s : WebRtcSession) (body : SdpBody)
      (offer : Result Text (Unit {0}))
      → HasTaken xs s
      → HasTaken xs (set_offer bodies s body a offer).0
  set_offer-HasTaken xs s body (failure e) h = h
  set_offer-HasTaken xs s body (success parsed) h = with_offer-HasTaken xs s body a.set_remote h

  handle_offer-HasTaken :
      (xs : List IceCandidateInit) (s : WebRtcSession) (sdp : Result Text SdpBody)
      → HasTaken xs s
      → HasTaken xs (handle_offer bodies s a sdp).0
  unfolding handle_offer
  handle_offer-HasTaken xs s (failure e) h = h
  handle_offer-HasTaken xs s (success body) h = set_offer-HasTaken xs s body a.parse_offer h

  take_candidate-HasTaken :
      (xs : List IceCandidateInit) (s : WebRtcSession) (init : IceCandidateInit)
      (description : Option Text)
      → s.remote_description ≡ description
      → HasTaken xs s
      → HasTaken (xs ++ (init ∷ [])) (take_candidate s init a description).0
  take_candidate-HasTaken xs s init none r (e, d) = (
    sym (append_assoc s.given s.pending_ice (init ∷ [])) ∙ ap (λ l. l ++ (init ∷ [])) e,
    subst (λ q. IsDrained q (s.pending_ice ++ (init ∷ []))) (sym r) tt,
  )
  take_candidate-HasTaken xs s init (some sdp) r (e, d) =
      let drained : s.pending_ice ≡ [] = subst (λ q. IsDrained q s.pending_ice) r d in
      let all_given = sym (append-nil s.given) ∙ sym (ap (λ p. s.given ++ p) drained) ∙ e in
      (
        ap (λ p. (s.given ++ (init ∷ [])) ++ p) drained
            ∙ append-nil (s.given ++ (init ∷ []))
            ∙ ap (λ l. l ++ (init ∷ [])) all_given,
        d,
      )

  handle_candidate-HasTaken :
      (xs : List IceCandidateInit) (s : WebRtcSession) (candidate : Result Text IceCandidateBody)
      → HasTaken xs s
      → HasTaken (xs ++ decoded candidate) (handle_candidate s a candidate).0
  unfolding handle_candidate
  handle_candidate-HasTaken xs s (failure e) h = nothing-HasTaken xs s h
  handle_candidate-HasTaken xs s (success body) h =
      take_candidate-HasTaken xs s (init_of body) s.remote_description refl h

  handle_signal-HasTaken :
      (xs : List IceCandidateInit) (s : WebRtcSession) (signal : WebRtcSignal)
      → HasTaken xs s
      → HasTaken (xs ++ candidate_of bodies signal) (handle_signal bodies s signal a).0
  unfolding handle_signal candidate_of
  handle_signal-HasTaken xs s signal h = elim (Bool-cases (signal.msg_type == 3)) [
    | inl e ↦
        let other : (signal.msg_type == 4) ≡ false = ground (arith, e) in
        rw (e, other)
          (nothing-HasTaken xs (handle_offer bodies s a (bodies.decode_sdp signal.body)).0
            (handle_offer-HasTaken xs s (bodies.decode_sdp signal.body) h))
    | inr e ↦ elim (Bool-cases (signal.msg_type == 4)) [
      | inl e' ↦ rw (e, e') (handle_candidate-HasTaken xs s (bodies.decode_candidate signal.body) h)
      | inr e' ↦ rw (e, e') (nothing-HasTaken xs s h)
    ]
  ]

session_round-HasTaken :
    (bodies : Bodies) (xs : List IceCandidateInit) (s : WebRtcSession) (p : Picked)
    → RefusesWhole p
    → HasTaken xs s
    → ((session_round bodies s p).goes_on ≡ keeps_going p)
      × HasTaken (xs ++ candidate_in bodies p) (session_round bodies s p).session
unfolding session_round candidate_in
session_round-HasTaken bodies xs s (signaling_event none a) w h =
    (refl, nothing-HasTaken bodies a w xs s h)
session_round-HasTaken bodies xs s (signaling_event (some (web_rtc_event signal)) a) w h =
    (refl, handle_signal-HasTaken bodies a w xs s signal h)
session_round-HasTaken bodies xs s (signaling_event (some (status_event status)) a) w h =
    (refl, nothing-HasTaken bodies a w xs s h)
session_round-HasTaken bodies xs s (signaling_event (some (features_event features)) a) w h =
    (refl, nothing-HasTaken bodies a w xs s h)
session_round-HasTaken bodies xs s (signaling_event (some (unknown_event name payload)) a) w h =
    (refl, nothing-HasTaken bodies a w xs s h)
session_round-HasTaken bodies xs s (signaling_event (some (closed_event reason)) a) w h =
    (refl, nothing-HasTaken bodies a w xs s h)
session_round-HasTaken bodies xs s (outbound_signal none ok) w h =
    (refl, (h.0 ∙ sym (append-nil xs), h.1))
session_round-HasTaken bodies xs s (outbound_signal (some out) true) w h =
    (refl, (h.0 ∙ sym (append-nil xs), h.1))
session_round-HasTaken bodies xs s (outbound_signal (some out) false) w h =
    (refl, (h.0 ∙ sym (append-nil xs), h.1))

run_session-HasTaken :
    (bodies : Bodies) (xs : List IceCandidateInit) (s : WebRtcSession) (picked : List Picked)
    → All RefusesWhole picked
    → HasTaken xs s
    → HasTaken (xs ++ arrived bodies picked) (run_session bodies s picked).session
unfolding run_session arrived
run_session-HasTaken bodies xs s [] ws h = (h.0 ∙ sym (append-nil xs), h.1)
run_session-HasTaken bodies xs s (p ∷ rest) (w, ws) h =
    let (on, taken) = session_round-HasTaken bodies xs s p w h in
    elim (Bool-cases (keeps_going p)) [
      | inl e ↦
          rw (on, e)
            (subst
              (λ l. HasTaken l (run_session bodies (session_round bodies s p).session rest).session)
              (append_assoc xs (candidate_in bodies p) (arrived bodies rest))
              (run_session-HasTaken bodies (xs ++ candidate_in bodies p)
                (session_round bodies s p).session rest ws taken))
      | inr e ↦
          rw (on, e)
            (subst (λ l. HasTaken (xs ++ l) (session_round bodies s p).session)
              (sym (append-nil (candidate_in bodies p))) taken)
    ]

-- Whatever the signaling brings until the session's loop ends, and whatever the peer connection answers,
-- if it does not set a description that it refuses: the candidates that it has been given, and
-- behind them those that wait, are all the candidates that arrived, in their order, each once; and
-- none waits when there is a remote description.
pub run_session-new :
    (bodies : Bodies) (camera_token session_id : Text) (picked : List Picked)
    → All RefusesWhole picked
    → HasTaken
        (arrived bodies picked)
        (run_session bodies (new camera_token session_id) picked).session
unfolding new
run_session-new bodies camera_token session_id picked ws =
    run_session-HasTaken bodies [] (new camera_token session_id) picked ws (refl, tt)
