-- ===== src/Supervisor/Watchdog.antt =====
-- src/supervisor/mod.rs: `reconnect_watchdog`, cut where it awaits. Each function gives the world
-- and the watchdog that goes on; `none` ends it. The jitter of its backoff is a parameter.
use buddy3d_proxy.Prelude.{
  ℕ, ◌+◌, ◌*◌, max, ◌==◌, if◌then◌else◌, Bool, false, not, Option, none, some,
}
use buddy3d_proxy.Pacing.Budget.{wait_time, record_success, record_failure}
use buddy3d_proxy.Pacing.Backoff.{next_delay, reset}
use buddy3d_proxy.Supervisor.Defs.{
  streaming, Watchdog, awaiting_end, sleeping, reconnecting, World, is_positive, set_state,
}

-- `same_channel` with the session's channel
abbrev pub is_current : Option ℕ → ℕ → Bool
is_current none channel = false
is_current (some c) channel = c == channel

-- The head of the retry loop: the longer of the two delays, in nanoseconds.
unfoldable pub sleep : (ℕ → ℕ) → World → Watchdog → ℕ → World × Option Watchdog
sleep jittered w d now =
    let budget_wait = wait_time w.budget now in
    let delay = next_delay jittered d.backoff in
    (
      record w { budget = budget_wait.0 },
      some (record d {
        backoff = delay.0;
        phase = sleeping (now + max (delay.1 * 1_000_000) budget_wait.1);
      }),
    )

-- `ended.await` gives an error after an orderly tear-down.
unfoldable pub torn_down : World → Watchdog → World × Option Watchdog
torn_down w d = (w, none)

unfoldable pub session_ended : (ℕ → ℕ) → World → Watchdog → ℕ → World × Option Watchdog
unfolding sleep
session_ended jittered w d now =
    if is_positive w.viewer_count then sleep jittered w d now else (w, none)

-- Behind the sleep: the three reasons to stop, or the next attempt.
unfoldable pub wake : World → Watchdog → World × Option Watchdog
wake w d =
    if not (is_current w.session.rtp_tx d.channel)
    then (w, none)
    else if not (is_positive w.viewer_count)
    then (w, none)
    else if w.failed
    then (w, none)
    else (w, some (record d { phase = reconnecting }))

unfoldable pub reconnect_ok : World → Watchdog → ℕ → ℕ → World × Option Watchdog
reconnect_ok w d now stop =
    let charged = record w { budget = record_success w.budget now } in
    if not (is_current w.session.rtp_tx d.channel) then (charged, none) else (
      set_state
          (record charged {
            session_started_at = some now;
            wss_reconnects_total = w.wss_reconnects_total + 1;
          })
          (record w.session { stop = some stop; state = streaming }),
      some (record d { backoff = reset d.backoff; phase = awaiting_end }),
    )

unfoldable pub reconnect_err : (ℕ → ℕ) → World → Watchdog → ℕ → World × Option Watchdog
unfolding sleep
reconnect_err jittered w d now =
    sleep jittered (record w { budget = record_failure w.budget now; last_error_at = some now }) d
      now
