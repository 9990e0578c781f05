-- ===== src/Mqtt/State/Examples.antt =====
-- src/mqtt/state.rs: runs of its own tests, and the theorem at a concrete run.
use buddy3d_proxy.Prelude.{◌≡◌, refl, true, false, [], ◌∷◌}
use buddy3d_proxy.Prelude.Text.{codes}
use buddy3d_proxy.Supervisor.{idle, connecting, streaming}
use buddy3d_proxy.Mqtt.State.{translate, start, run_watcher}
use buddy3d_proxy.Mqtt.State.Transitions.{IsTransitions, latest, run_watcher-IsTransitions}

-- `auth_failed_takes_precedence`
auth_failed : translate streaming true ≡ codes "auth_failed"
unfolding translate
auth_failed = refl

published_once :
    (run_watcher
      (start idle false)
      ((idle, false) ∷ (connecting, false) ∷ (connecting, false) ∷ [])).published
    ≡ codes "idle" ∷ codes "connecting" ∷ []
unfolding run_watcher start
published_once = refl

run_watcher-IsTransitions_example :
    IsTransitions
      (run_watcher (start idle false) ((idle, false) ∷ (streaming, false) ∷ [])).published
      (run_watcher (start idle false) ((idle, false) ∷ (streaming, false) ∷ [])).last
    × ((run_watcher (start idle false) ((idle, false) ∷ (streaming, false) ∷ [])).last
        ≡ latest (idle, false) ((idle, false) ∷ (streaming, false) ∷ []))
run_watcher-IsTransitions_example =
    run_watcher-IsTransitions idle false ((idle, false) ∷ (streaming, false) ∷ [])
