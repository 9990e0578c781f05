-- ===== src/Supervisor/EventLoop.antt =====
-- src/supervisor/mod.rs: `viewer_event_loop`, the idle timers and `teardown_session`.
use buddy3d_proxy.Prelude.{ℕ, ◌+◌, if◌then◌else◌, Option, none, some, List, [], ◌∷◌, ◌==◌}
use buddy3d_proxy.Supervisor.Defs.{
  State, idle, connecting, streaming, ViewerEvent, attached, detached, Timer, World, sub_one,
  is_positive, set_state,
}

unfoldable pub without : ℕ → List Timer → List Timer
without id [] = []
without id (t ∷ ts) = if t.id == id then ts else t ∷ without id ts

-- `idle_timer.take()` and `abort`; a timer that the loop has let go of runs on.
unfoldable pub abort_timer : Option ℕ → World → World
abort_timer none w = w
abort_timer (some id) w = record w { timers = without id w.timers; idle_timer = none }

unfoldable pub handle_event : World → ViewerEvent → ℕ → World
unfolding abort_timer
handle_event w attached now = abort_timer w.idle_timer w
handle_event w detached now =
    let after = sub_one w.viewer_count in
    let w' = record w { viewer_count = after } in
    if is_positive after then w' else record w' {
      timers = record { id = w.next_timer; deadline = now + w.idle_timeout } ∷ w.timers;
      idle_timer = some w.next_timer;
      next_timer = w.next_timer + 1;
    }

unfoldable pub clear_session : World → World
clear_session w = set_state w (record { state = idle; rtp_tx = none; stop = none; h264 = none })

unfoldable pub teardown_state : State → World → World
unfolding clear_session
teardown_state idle w = w
teardown_state connecting w = clear_session w
teardown_state streaming w = clear_session w

unfoldable pub teardown_session : World → World
unfolding teardown_state
teardown_session w = if is_positive w.viewer_count then w else teardown_state w.session.state w
