-- ===== src/Supervisor/Subscribe.antt =====
-- src/supervisor/mod.rs: `StreamSource::subscribe` of the supervisor, `connect_session` and
-- `budgeted_connect`, cut where the code awaits. The budget's lock and the state's lock behind a
-- finished connect are taken in one step: beside `snapshot`, which only reads, no other task takes the
-- budget while the state is `connecting`.
use buddy3d_proxy.Prelude.{ℕ, ◌+◌, ◌-◌, ◌==◌, if◌then◌else◌, Option, none, some, ◌∷◌}
use buddy3d_proxy.Pacing.Budget.{wait_time, record_success, record_failure}
use buddy3d_proxy.Pacing.Backoff.{default_backoff}
use buddy3d_proxy.Rtsp.Params.{H264Params}
use buddy3d_proxy.Supervisor.Defs.{
  State, idle, connecting, streaming, attached, detached, awaiting_end, World, add_one, set_state,
  send_event,
}

-- The viewer counts itself and announces itself.
unfoldable pub enter : World → World
enter w =
    send_event (record w { viewer_count = add_one w.viewer_count; entered = w.entered + 1 })
      attached

-- Idle: refuse the viewer while the budget asks for a wait, or begin to connect.
unfoldable pub begin : World → ℕ → World
begin w now =
    let answer = wait_time w.budget now in
    let w' = record w { budget = answer.0 } in
    if answer.1 == 0
    then set_state (record w' { connects = w.connects + 1 })
        (record w.session { state = connecting })
    else send_event w' detached

unfoldable pub dispatch : State → World → ℕ → World
unfolding begin
dispatch idle w now = begin w now
dispatch connecting w now = record w { waiting = w.waiting + 1 }
dispatch streaming w now = record w { reading = w.reading + 1 }

-- The viewer gets the lock.
unfoldable pub acquire_session : World → ℕ → World
unfolding dispatch
acquire_session w now = dispatch w.session.state (record w { entered = w.entered - 1 }) now

-- A `OnceCell` keeps the value that it has.
abbrev pub once_set : Option H264Params → H264Params → Option H264Params
once_set none p = some p
once_set (some q) p = some q

-- `connect` has answered with parameters and a stop handle.
unfoldable pub connect_ok : World → ℕ → H264Params → ℕ → World
connect_ok w now params stop =
    set_state
      (record w {
        budget = record_success w.budget now;
        session_started_at = some now;
        next_channel = w.next_channel + 1;
        connects = w.connects - 1;
        reading = w.reading + 1;
        watchdogs =
            record { channel = w.next_channel; backoff = default_backoff; phase = awaiting_end }
            ∷ w.watchdogs;
      })
      (record {
        state = streaming;
        rtp_tx = some w.next_channel;
        stop = some stop;
        h264 = once_set w.session.h264 params;
      })

unfoldable pub reset_connecting : State → World → World
reset_connecting connecting w = set_state w (record w.session { state = idle })
reset_connecting _ w = w

-- `connect` has failed.
unfoldable pub connect_err : World → ℕ → World
unfolding reset_connecting
connect_err w now =
    let charged = record w { budget = record_failure w.budget now; connects = w.connects - 1 } in
    record (send_event (reset_connecting w.session.state charged) detached) {
      last_error_at = some now;
    }

-- One turn of the loop on the watch.
unfoldable pub observe : State → World → World
observe streaming w = record w { waiting = w.waiting - 1; reading = w.reading + 1 }
observe idle w = send_event (record w { waiting = w.waiting - 1 }) detached
observe connecting w = w

-- `state_watch.borrow_and_update`
unfoldable pub wait_turn : World → World
unfolding observe
wait_turn w = observe w.state_watch w

unfoldable pub take_subscription : World → Option H264Params → Option ℕ → Option World
take_subscription w none channel = none
take_subscription w (some h264) none = none
take_subscription w (some h264) (some channel) =
    some (record w { reading = w.reading - 1; viewers = w.viewers + 1 })

-- The two `expect`s, and the subscription; `none` is a panic.
unfoldable pub finish : World → Option World
unfolding take_subscription
finish w = take_subscription w w.session.h264 w.session.rtp_tx

-- `Subscription::drop`
unfoldable pub drop_subscription : World → World
drop_subscription w = send_event (record w { viewers = w.viewers - 1 }) detached
