-- ===== src/Supervisor/Defs.antt =====
-- src/supervisor/mod.rs: the types, and `Supervisor::new`.
use buddy3d_proxy.Prelude.{ℕ, zero, suc, Bool, true, false, Option, none, List, [], ◌∷◌, ◌++◌}
use buddy3d_proxy.Pacing.Budget.{ReconnectBudget}
use buddy3d_proxy.Pacing.Backoff.{ExpBackoff}
use buddy3d_proxy.Rtsp.Params.{H264Params}

-- `negsuc n` is -(n + 1).
pub data ℤ : Type 0 where
  pos : ℕ → ℤ
  negsuc : ℕ → ℤ

abbrev pub add_one : ℤ → ℤ
add_one (pos n) = pos (suc n)
add_one (negsuc zero) = pos 0
add_one (negsuc (suc n)) = negsuc n

abbrev pub sub_one : ℤ → ℤ
sub_one (pos zero) = negsuc 0
sub_one (pos (suc n)) = pos n
sub_one (negsuc n) = negsuc (suc n)

-- `> 0`
abbrev pub is_positive : ℤ → Bool
is_positive (pos zero) = false
is_positive (pos (suc n)) = true
is_positive (negsuc n) = false

pub data State : Type 0 where
  idle connecting streaming : State

pub data ViewerEvent : Type 0 where
  attached detached : ViewerEvent

pub record SessionState : Type 0 where
  pub state : State
  pub rtp_tx : Option ℕ
  pub stop : Option ℕ
  pub h264 : Option H264Params

pub data Phase : Type 0 where
  awaiting_end : Phase
  sleeping : ℕ → Phase
  reconnecting : Phase

pub record Watchdog : Type 0 where
  pub channel : ℕ
  pub backoff : ExpBackoff
  pub phase : Phase

pub record Timer : Type 0 where
  pub id : ℕ
  pub deadline : ℕ

-- The counters do not wrap: `viewer_count` is an `AtomicI32` in the source and `wss_reconnects_total`
-- an `AtomicU64`, which stand for these as long as they stay within their range.
pub record World : Type 0 where
  pub session : SessionState
  pub viewer_count : ℤ
  pub queue : List ViewerEvent
  pub state_watch : State
  pub budget : ReconnectBudget
  pub failed : Bool
  pub wss_reconnects_total : ℕ
  pub last_error_at : Option ℕ
  pub session_started_at : Option ℕ
  pub idle_timeout : ℕ
  -- The idle timers that run, and the handle that the event loop holds.
  pub timers : List Timer
  pub idle_timer : Option ℕ
  pub next_timer : ℕ
  pub next_channel : ℕ
  pub entered : ℕ
  pub connects : ℕ
  pub waiting : ℕ
  pub reading : ℕ
  pub viewers : ℕ
  pub watchdogs : List Watchdog

unfoldable pub new : ℕ → ReconnectBudget → World
new idle_timeout budget = record {
  session = record { state = idle; rtp_tx = none; stop = none; h264 = none };
  viewer_count = pos 0;
  queue = [];
  state_watch = idle;
  budget = budget;
  failed = false;
  wss_reconnects_total = 0;
  last_error_at = none;
  session_started_at = none;
  idle_timeout = idle_timeout;
  timers = [];
  idle_timer = none;
  next_timer = 0;
  next_channel = 0;
  entered = 0;
  connects = 0;
  waiting = 0;
  reading = 0;
  viewers = 0;
  watchdogs = [];
}

-- `state.state = s` with `state_watch.send(s)` under the same lock.
abbrev pub set_state : World → SessionState → World
set_state w s = record w { session = s; state_watch = s.state }

abbrev pub send_event : World → ViewerEvent → World
send_event w e = record w { queue = w.queue ++ (e ∷ []) }
