-- ===== src/Supervisor/Steps.antt =====
-- src/supervisor/mod.rs: the interleavings. A step is one stretch of one task between two awaits;
-- the caller of a step picks the task, the time, and what the factory and the timers do.
use buddy3d_proxy.Prelude.{ℕ, ◌≤◌, ◌<◌, ◌≡◌, true, Option, none, some, List, ◌∷◌, ◌++◌}
use buddy3d_proxy.Pacing.Budget.{ReconnectBudget}
use buddy3d_proxy.Rtsp.Params.{H264Params}
use buddy3d_proxy.Supervisor.Defs.{
  ViewerEvent, Timer, Watchdog, awaiting_end, sleeping, reconnecting, World, new,
}
use buddy3d_proxy.Supervisor.Subscribe.{
  enter, acquire_session, connect_ok, connect_err, wait_turn, finish, drop_subscription,
}
use buddy3d_proxy.Supervisor.EventLoop.{handle_event, teardown_session}
use buddy3d_proxy.Supervisor.Snapshot.{snapshot}
use buddy3d_proxy.Supervisor.Watchdog.{torn_down, session_ended, wake, reconnect_ok, reconnect_err}

abbrev with_watchdogs : List Watchdog → Option Watchdog → List Watchdog → List Watchdog
with_watchdogs before none behind = before ++ behind
with_watchdogs before (some d) behind = before ++ (d ∷ behind)

abbrev pub put_back : World × Option Watchdog → List Watchdog → List Watchdog → World
put_back (w, d) before behind = record w { watchdogs = with_watchdogs before d behind }

module _ (jittered : ℕ → ℕ) where
  -- What a watchdog can do next in its phase.
  pub data WatchdogStep (w : World) (d : Watchdog) : World × Option Watchdog → Type 0 where
    orderly : d.phase ≡ awaiting_end → WatchdogStep w d (torn_down w d)
    ends : (now : ℕ) → d.phase ≡ awaiting_end → WatchdogStep w d (session_ended jittered w d now)
    wakes :
        (now deadline : ℕ)
        → d.phase ≡ sleeping deadline
        → deadline ≤ now
        → WatchdogStep w d (wake w d)
    succeeds :
        (now stop : ℕ) → d.phase ≡ reconnecting → WatchdogStep w d (reconnect_ok w d now stop)
    fails : (now : ℕ) → d.phase ≡ reconnecting → WatchdogStep w d (reconnect_err jittered w d now)

  pub data Step : World → World → Type 0 where
    enters : (w : World) → Step w (enter w)
    acquires : (w : World) (now : ℕ) → 0 < w.entered → Step w (acquire_session w now)
    connected :
        (w : World) (now : ℕ) (params : H264Params) (stop : ℕ)
        → 0 < w.connects
        → Step w (connect_ok w now params stop)
    refused : (w : World) (now : ℕ) → 0 < w.connects → Step w (connect_err w now)
    turns : (w : World) → 0 < w.waiting → Step w (wait_turn w)
    finishes : (w w' : World) → 0 < w.reading → finish w ≡ some w' → Step w w'
    drops : (w : World) → 0 < w.viewers → Step w (drop_subscription w)
    handles :
        (w : World) (e : ViewerEvent) (rest : List ViewerEvent) (now : ℕ)
        → w.queue ≡ e ∷ rest
        → Step w (handle_event (record w { queue = rest }) e now)
    fires :
        (w : World) (before : List Timer) (t : Timer) (behind : List Timer) (now : ℕ)
        → w.timers ≡ before ++ (t ∷ behind)
        → t.deadline ≤ now
        → Step w (teardown_session (record w { timers = before ++ behind }))
    watches :
        (w : World) (before : List Watchdog) (d : Watchdog) (behind : List Watchdog)
        (r : World × Option Watchdog)
        → w.watchdogs ≡ before ++ (d ∷ behind)
        → WatchdogStep w d r
        → Step w (put_back r before behind)
    samples : (w : World) (now : ℕ) → Step w (snapshot w now).0
    auth_fails : (w : World) → Step w (record w { failed = true })

  pub data Reach (idle_timeout : ℕ) (budget : ReconnectBudget) : World → Type 0 where
    start : Reach idle_timeout budget (new idle_timeout budget)
    later : {w w' : World} → Reach idle_timeout budget w → Step w w' → Reach idle_timeout budget w'
