-- ===== src/Supervisor/Snapshot.antt =====
-- src/supervisor/mod.rs: `snapshot` and `subscribe_rtp`. An instant is a number of nanoseconds.
use buddy3d_proxy.Prelude.{ℕ, ◌-◌, ◌/◌, Option}
use mathlib.Core.Option as Option
use buddy3d_proxy.Pacing.Budget.{tokens}
use buddy3d_proxy.Supervisor.Defs.{ℤ, pos, negsuc, State, World}

pub record SupervisorSnapshot : Type 0 where
  pub state : State
  pub viewers : ℕ
  pub wss_reconnects_total : ℕ
  pub session_uptime_secs : Option ℕ
  pub last_error_age_secs : Option ℕ
  pub reconnect_tokens : ℕ
  pub reconnect_tokens_cap : ℕ

-- `max(0) as u32`
abbrev clamp : ℤ → ℕ
clamp (pos n) = n
clamp (negsuc n) = 0

-- `elapsed().as_secs()`
abbrev elapsed_secs : ℕ → ℕ → ℕ
elapsed_secs now t = (now - t) / 1_000_000_000

unfoldable pub snapshot : World → ℕ → World × SupervisorSnapshot
snapshot w now =
    let (budget, left) = tokens w.budget now in
    (
      record w { budget = budget },
      record {
        state = w.session.state;
        viewers = clamp w.viewer_count;
        wss_reconnects_total = w.wss_reconnects_total;
        session_uptime_secs = Option.map (elapsed_secs now) w.session_started_at;
        last_error_age_secs = Option.map (elapsed_secs now) w.last_error_at;
        reconnect_tokens = left;
        reconnect_tokens_cap = w.budget.capacity;
      },
    )

-- A receiver is the channel that it listens to.
unfoldable pub subscribe_rtp : World → Option ℕ
subscribe_rtp w = w.session.rtp_tx
