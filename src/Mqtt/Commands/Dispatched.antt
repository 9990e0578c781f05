-- ===== src/Mqtt/Commands/Dispatched.antt =====
-- src/mqtt/commands.rs, src/mqtt/transient.rs: each command goes out once, or the caller is told.
use buddy3d_proxy.Prelude.{◌≡◌, ◌⊎◌, false, List, [], ◌∷◌}
use buddy3d_proxy.Prelude.Text.{Text, codes}
use buddy3d_proxy.Prelude.Results.{Result, success, failure}
use buddy3d_proxy.Prusa.Commands.{encode_camera_trigger}
use buddy3d_proxy.Prusa.Signaling.Client.{Outbound, outbound_event}
use buddy3d_proxy.Mqtt.Transient.{TransientError}

module _ {Value : Type 0} where
  -- The event by which a connection of its own subscribes to the camera's settings
  abbrev pub trigger_3 : Text → Outbound Value
  trigger_3 token = outbound_event (codes "trigger") (encode_camera_trigger 3 token) false

  -- The command's event has gone out behind the trigger, or there is an error and it has not.
  abbrev pub IsSentOnce :
      Text → Outbound Value → List (Outbound Value) → Result TransientError (Unit {0}) → Type 0
  IsSentOnce token event events result =
      ((result ≡ success tt) × (events ≡ trigger_3 token ∷ event ∷ []))
      ⊎ ((e : TransientError) × (result ≡ failure e)
          × ((events ≡ []) ⊎ (events ≡ trigger_3 token ∷ [])))

  abbrev IsSent :
      Text → Outbound Value → List (Outbound Value) × Result TransientError (Unit {0}) → Type 0
  IsSent token event (events, result) = IsSentOnce token event events result
