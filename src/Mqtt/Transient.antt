-- ===== src/Mqtt/Transient.antt =====
-- src/mqtt/transient.rs: a command over a signaling connection of its own. What the account, the REST
-- calls and the signaling answer is given; `taken` says whether the transport takes an event.
use buddy3d_proxy.Prelude.{if◌then◌else◌, Bool, Option, none, some, List, [], ◌∷◌, ◌++◌}
use buddy3d_proxy.Prelude.Text.{Text, codes, same_text}
use buddy3d_proxy.Prelude.Results.{Result, success, failure, map_err, ok_or, ◌>>=◌}
use buddy3d_proxy.Prusa.Api.{Printer, Camera}
use buddy3d_proxy.Prusa.Commands.{encode_camera_trigger}
use buddy3d_proxy.Prusa.Signaling.Client.{Outbound}
use buddy3d_proxy.Prusa.Signaling.Session.{SignalingError}
use buddy3d_proxy.Prusa.Signaling.Session.Sending.{send_trigger, send_configuration}

pub data TransientError : Type 0 where
  auth : Text → TransientError
  api : Text → TransientError
  signaling : Text → TransientError

pub record Answered : Type 0 where
  pub access_token : Result Text Text
  pub webrtc_config : Result Text (Unit {0})
  pub connected : Result Text (Unit {0})
  pub trigger_taken : Bool
  pub payload_taken : Bool
  pub message : SignalingError → Text

unfoldable pub open_transient : Answered → Result TransientError (Unit {0})
open_transient answered = do
  token ← map_err answered.access_token auth
  cfg ← map_err answered.webrtc_config api
  map_err answered.connected signaling

module _ {Value : Type 0} (answered : Answered) where
  abbrev sent : Result SignalingError (Outbound Value) → Result TransientError (Outbound Value)
  sent r = map_err r (λ e. signaling (answered.message e))

  -- The event of the command itself
  unfoldable pub send_kind : Text → Text → Result TransientError (Outbound Value)
  unfolding same_text send_configuration send_trigger
  send_kind kind payload =
      if same_text kind (codes "configuration")
      then sent (send_configuration answered.payload_taken payload)
      else if same_text kind (codes "trigger")
      then sent (send_trigger answered.payload_taken payload)
      else failure (signaling (codes "unknown kind " ++ kind))

  -- The events that are sent, in their order, and the result
  abbrev pub after_trigger :
      Text
      → Text
      → Result TransientError (Outbound Value)
      → List (Outbound Value) × Result TransientError (Unit {0})
  after_trigger kind payload (failure e) = ([], failure e)
  after_trigger kind payload (success trigger3) = elim (send_kind kind payload) [
    | failure e ↦ (trigger3 ∷ [], failure e)
    | success out ↦ (trigger3 ∷ out ∷ [], success tt)
  ]

  abbrev pub after_open :
      Text
      → Text
      → Text
      → Result TransientError (Unit {0})
      → List (Outbound Value) × Result TransientError (Unit {0})
  after_open camera_token kind payload (failure e) = ([], failure e)
  after_open camera_token kind payload (success done) =
      after_trigger kind payload
        (sent (send_trigger answered.trigger_taken (encode_camera_trigger 3 camera_token)))

  -- `TransientSignaler::send`
  unfoldable pub send_command :
      Text → Text → Text → List (Outbound Value) × Result TransientError (Unit {0})
  unfolding open_transient send_kind encode_camera_trigger
  send_command camera_token kind payload =
      after_open camera_token kind payload (open_transient answered)

abbrev first {ℓ} : {A : Type ℓ} → List A → Option A
first [] = none
first (x ∷ xs) = some x

-- The first camera of the first printer
unfoldable pub lookup_camera :
    Result Text Text
    → Result Text (List Printer)
    → (Text → Result Text (List Camera))
    → Result TransientError Camera
lookup_camera access_token printers cameras_of = do
  token ← map_err access_token auth
  all ← map_err printers api
  printer ← ok_or (first all) (api (codes "no printers"))
  cams ← map_err (cameras_of printer.uuid) api
  ok_or (first cams) (api (codes "no cameras"))
