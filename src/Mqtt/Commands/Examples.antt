-- ===== src/Mqtt/Commands/Examples.antt =====
-- src/mqtt/commands.rs: runs of its own tests, and the theorem at a failing live channel.
use buddy3d_proxy.Prelude.{◌≡◌, refl, true, false, none, some, []}
use buddy3d_proxy.Prelude.Text.{codes}
use buddy3d_proxy.Mqtt.Commands.{set_mode, parse}
use buddy3d_proxy.Mqtt.Transient.{Answered}
use buddy3d_proxy.Prelude.Results.{success}

night : parse (codes "mode/set") (codes " Night\n") ≡ some (set_mode 3)
unfolding parse
night = refl

unknown : parse (codes "mode/set") (codes "night") ≡ none
unfolding parse
unknown = refl

abbrev answered : Answered
answered = record {
  access_token = success (codes "jwt");
  webrtc_config = success tt;
  connected = success tt;
  trigger_taken = true;
  payload_taken = false;
  message = λ e. [];
}
