-- ===== src/Prusa/Signaling/Session/Handshake.antt =====
-- src/prusa/signaling/mod.rs: what a session sends by itself, and when.
use buddy3d_proxy.Prelude.{
  ◌≡◌, refl, ap, ◌∙◌, if◌then◌else◌, ◌==◌, true, false, Bool-cases, inl, inr, Option, none, some,
  List, [], append-nil, Option-cases, ◌∷◌, ◌++◌,
}
use buddy3d_proxy.Prelude.Text.{Text, codes}
use buddy3d_proxy.Prelude.Results.{Result, success, failure, Result-cases}
use buddy3d_proxy.Prusa.Signaling.Json.{Json}
use buddy3d_proxy.Prusa.Signaling.Client.{
  Outbound, outbound_event, Inbound, connected, disconnected, inbound_event, ack, transport_closed,
}
use buddy3d_proxy.Prusa.Signaling.Session.{
  SignalingError, Prost, Opening, trigger, kickoff, is_accepted, on_auth_ack, translate,
  translate_all, client_authentication, run_translator, await_connected, connect_request,
  from_transport,
}

module _ {Value : Type 0} where
  -- The payload of the first acknowledgement of id 0, which is that of the authentication.
  unfoldable pub first_auth_ack : List (Inbound Value) → Option (List Value)
  first_auth_ack [] = none
  first_auth_ack (ack id payload ∷ rest) =
      let further = first_auth_ack rest in if id == 0 then some payload else further
  first_auth_ack (connected sid ∷ rest) = first_auth_ack rest
  first_auth_ack (disconnected ∷ rest) = first_auth_ack rest
  first_auth_ack (inbound_event name payload ∷ rest) = first_auth_ack rest
  first_auth_ack (transport_closed reason ∷ rest) = first_auth_ack rest

module _ {Value : Type 0} (json : Json Value) (prost : Prost) (o : Opening Value) where
  -- Both triggers and the kick-off, for an acknowledgement that accepts
  unfoldable pub activation : Text → Option (List Value) → List (Outbound Value)
  activation sid none = []
  activation sid (some payload) =
      if is_accepted json prost o payload
      then trigger json prost o 1 0 ++ (trigger json prost o 0 1 ++ kickoff json prost o sid)
      else []

  -- The authentication, and then the activation
  unfoldable pub greeting : Text → List (Inbound Value) → Option Text → List (Outbound Value)
  unfolding activation first_auth_ack
  greeting sid rest none = []
  greeting sid rest (some payload) =
      outbound_event (codes "client_authentication") payload true
      ∷ activation sid (first_auth_ack rest)

  unfoldable pub conversation :
      Result SignalingError (Text × List (Inbound Value)) → List (Outbound Value)
  unfolding greeting
  conversation (failure e) = connect_request json prost o ∷ []
  conversation (success (sid, rest)) =
      connect_request json prost o ∷ greeting sid rest (client_authentication json prost o)

  -- An acknowledged session sends nothing more by itself.
  translate_all-acked :
      (sid : Text) (inbounds : List (Inbound Value))
      → (translate_all json prost o sid inbounds true).sent ≡ []
  unfolding translate_all translate
  translate_all-acked sid [] = refl
  translate_all-acked sid (connected again ∷ rest) = translate_all-acked sid rest
  translate_all-acked sid (disconnected ∷ rest) = translate_all-acked sid rest
  translate_all-acked sid (inbound_event name payload ∷ rest) = translate_all-acked sid rest
  translate_all-acked sid (ack id payload ∷ rest) = translate_all-acked sid rest
  translate_all-acked sid (transport_closed reason ∷ rest) = translate_all-acked sid rest

  translate_all-first_auth_ack :
      (sid : Text) (inbounds : List (Inbound Value))
      → (translate_all json prost o sid inbounds false).sent
        ≡ activation sid (first_auth_ack inbounds)
  unfolding translate_all translate activation first_auth_ack on_auth_ack
  translate_all-first_auth_ack sid [] = refl
  translate_all-first_auth_ack sid (connected again ∷ rest) = translate_all-first_auth_ack sid rest
  translate_all-first_auth_ack sid (disconnected ∷ rest) = translate_all-first_auth_ack sid rest
  translate_all-first_auth_ack sid (inbound_event name payload ∷ rest) =
      translate_all-first_auth_ack sid rest
  translate_all-first_auth_ack sid (transport_closed reason ∷ rest) =
      translate_all-first_auth_ack sid rest
  translate_all-first_auth_ack sid (ack id payload ∷ rest) = elim (Bool-cases (id == 0)) [
    | inr e ↦ rw (e) (translate_all-first_auth_ack sid rest)
    | inl e ↦ elim (Bool-cases (is_accepted json prost o payload)) [
      | inr e' ↦ rw (e, e') refl
      | inl e' ↦
          let out =
            trigger json prost o 1 0 ++ (trigger json prost o 0 1 ++ kickoff json prost o sid) in
          rw (e, e') (ap (λ l. out ++ l) (translate_all-acked sid rest) ∙ append-nil out)
    ]
  ]

  run_translator-greeting :
      (sid : Text) (rest : List (Inbound Value))
      → (run_translator json prost o sid rest).sent
        ≡ greeting sid rest (client_authentication json prost o)
  unfolding run_translator greeting
  run_translator-greeting sid rest = elim (Option-cases (client_authentication json prost o)) [
    | inl e ↦ rw (e) refl
    | inr (payload, e) ↦ rw (e) (
        ap (◌∷◌ (outbound_event (codes "client_authentication") payload true))
          (translate_all-first_auth_ack sid rest))
  ]

  -- Whatever the server sends, a session sends the CONNECT; when the reply has come it sends the
  -- authentication; and when the first acknowledgement of id 0 says zero it sends the two triggers and
  -- the kick-off, each once and in this order, and nothing else. So nothing that needs the
  -- permission goes out without it, and a second acknowledgement does not start the camera again.
  pub from_transport-conversation :
      (inbounds : List (Inbound Value))
      → (from_transport json prost o true inbounds).1.sent ≡ conversation (await_connected inbounds)
  unfolding from_transport conversation
  from_transport-conversation inbounds = elim (Result-cases (await_connected inbounds)) [
    | inl ((sid, rest), e) ↦
        rw (e) (ap (◌∷◌ (connect_request json prost o)) (run_translator-greeting sid rest))
    | inr (error, e) ↦ rw (e) refl
  ]
