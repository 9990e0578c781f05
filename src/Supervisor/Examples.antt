-- ===== src/Supervisor/Examples.antt =====
-- src/supervisor/mod.rs: a viewer that comes, watches, leaves and is the last.
use buddy3d_proxy.Prelude.{ℕ, ◌+◌, ◌≡◌, ◌⊎◌, ◌↔◌, some, List, [], ◌∷◌, refl, arith}
use buddy3d_proxy.Rtsp.Params.{H264Params}
use buddy3d_proxy.Pacing.Budget
use buddy3d_proxy.Pacing.Budget.{ReconnectBudget}
use buddy3d_proxy.Supervisor.Defs.{idle, streaming, attached, detached, World, Timer, new}
use buddy3d_proxy.Supervisor.Subscribe.{
  enter, begin, dispatch, acquire_session, connect_ok, take_subscription, finish, drop_subscription,
}
use buddy3d_proxy.Supervisor.EventLoop.{abort_timer, handle_event, teardown_session}
use buddy3d_proxy.Supervisor.Snapshot.{subscribe_rtp}
use buddy3d_proxy.Supervisor.Steps.{
  enters, acquires, connected, finishes, drops, handles, Reach, start, later,
}
use buddy3d_proxy.Supervisor.Invariant.{live, detached_count}
use buddy3d_proxy.Supervisor.Safety.{
  no_session, viewers_have_session, finish_returns, teardown_session_unused,
  subscribe_rtp_streaming, idle_session_released,
}

abbrev params : H264Params
params = record {
  payload_type = 96;
  packetization_mode = 1;
  sprop_parameter_sets = 90 ∷ [];
  profile_level_id = 52 ∷ [];
}

abbrev plain : ℕ → ℕ
plain n = n

abbrev budget : ReconnectBudget
unfolding Budget.new
budget = Budget.new 4 1000 0

abbrev world0 : World
world0 = new 30 budget

abbrev reading_world : World
reading_world = connect_ok (acquire_session (enter world0) 1) 2 params 7

reading-Reach : Reach plain 30 budget reading_world
unfolding new enter acquire_session dispatch begin connect_ok Budget.wait_time Budget.wait_of
    Budget.refill budget
reading-Reach =
    later (later (later start (enters world0)) (acquires (enter world0) 1 (omega arith)))
      (connected (acquire_session (enter world0) 1) 2 params 7 (omega arith))

-- The viewer has its subscription, and the event loop knows of it.
abbrev watching_world : World
watching_world =
    handle_event (record reading_world { reading = 0; viewers = 1; queue = [] }) attached 3

abbrev left_world : World
left_world = handle_event (record (drop_subscription watching_world) { queue = [] }) detached 4

watching-Reach : Reach plain 30 budget watching_world
unfolding new enter acquire_session dispatch begin connect_ok Budget.wait_time Budget.wait_of
    Budget.refill budget finish take_subscription
watching-Reach =
    later
      (later reading-Reach (
        finishes reading_world (record reading_world { reading = 0; viewers = 1 }) (omega arith)
          refl))
      (handles (record reading_world { reading = 0; viewers = 1 }) attached [] 3 refl)

left-Reach : Reach plain 30 budget left_world
unfolding new enter acquire_session dispatch begin connect_ok Budget.wait_time Budget.wait_of
    Budget.refill budget handle_event abort_timer drop_subscription
left-Reach =
    later (later watching-Reach (drops watching_world (omega arith)))
      (handles (drop_subscription watching_world) detached [] 4 refl)

finish_returns_example : (w' : World) × (finish reading_world ≡ some w')
unfolding new enter acquire_session dispatch begin connect_ok
finish_returns_example = finish_returns plain 30 budget reading_world reading-Reach (omega arith)

viewers_have_session_example :
    (watching_world.session.state ≡ streaming)
    × ((channel : ℕ) × (stop : ℕ) × (p : H264Params) × (watching_world.session.rtp_tx
          ≡ some channel)
        × (watching_world.session.stop ≡ some stop)
        × (watching_world.session.h264 ≡ some p))
unfolding new enter acquire_session dispatch begin connect_ok Budget.wait_time Budget.wait_of
    Budget.refill budget handle_event abort_timer
viewers_have_session_example =
    viewers_have_session plain 30 budget watching_world watching-Reach (omega arith)

teardown_session_unused_example :
    ((teardown_session watching_world).session ≡ watching_world.session)
    ⊎ (live watching_world + detached_count watching_world.queue ≡ 0)
teardown_session_unused_example =
    teardown_session_unused plain 30 budget watching_world watching-Reach

idle_session_released_example :
    (left_world.session.state ≡ idle)
    ⊎ ((t : Timer) × (behind : List Timer) × (left_world.timers ≡ t ∷ behind)
        × ((teardown_session (record left_world { timers = behind })).session ≡ no_session))
unfolding new enter acquire_session dispatch begin connect_ok Budget.wait_time Budget.wait_of
    Budget.refill budget handle_event abort_timer drop_subscription detached_count
idle_session_released_example =
    idle_session_released plain 30 budget left_world left-Reach (omega arith)

subscribe_rtp_streaming_example :
    (((channel : ℕ) × (subscribe_rtp watching_world ≡ some channel))
      ↔ (watching_world.session.state ≡ streaming))
    × (watching_world.state_watch ≡ watching_world.session.state)
subscribe_rtp_streaming_example =
    subscribe_rtp_streaming plain 30 budget watching_world watching-Reach
