-- ===== src/Pacing/Budget.antt =====
-- src/reconnect_budget.rs: the token bucket that paces WebRTC connect attempts.
-- An `Instant` is a number of nanoseconds, and each method takes the time of its `Instant::now()`.
-- `elapsed` saturates at zero, as truncated subtraction does. A refill period of zero makes the
-- source's division panic; every theorem has it positive.
pub mod Laws
pub mod Rate
mod Examples
use buddy3d_proxy.Prelude.{ℕ, ◌+◌, ◌-◌, ◌*◌, ◌/◌, ◌%◌, ◌^◌, min, leb, ltb, ◌==◌, if◌then◌else◌}

pub record ReconnectBudget : Type 0 where
  pub tokens : ℕ
  pub capacity : ℕ
  pub refill_period : ℕ
  pub last_refill : ℕ

abbrev pub default_capacity : ℕ
default_capacity = 10

abbrev pub default_refill_period : ℕ
default_refill_period = 5 * 60 * 1_000_000_000

-- Starts full.
unfoldable pub new : ℕ → ℕ → ℕ → ReconnectBudget
new capacity period now = record {
  tokens = capacity;
  capacity = capacity;
  refill_period = period;
  last_refill = now;
}

-- The addition is one of `u32`.
unfoldable pub credit : ReconnectBudget → ℕ → ℕ → ReconnectBudget
credit b earned now =
    let tokens = min ((b.tokens + earned) % 2 ^ 32) b.capacity in
    if leb b.capacity tokens
    then record b { tokens = tokens; last_refill = now }
    else record b { tokens = tokens; last_refill = b.last_refill + b.refill_period * earned }

unfoldable pub refill : ReconnectBudget → ℕ → ReconnectBudget
unfolding credit
refill b now =
    let earned = (now - b.last_refill) / b.refill_period in
    if leb b.capacity b.tokens
    then record b { last_refill = now }
    else if earned == 0
    then b
    else credit b (min earned b.capacity) now

unfoldable pub wait_of : ReconnectBudget → ℕ → ℕ
wait_of b now = if ltb 0 b.tokens then 0 else b.refill_period - (now - b.last_refill)

unfoldable pub wait_time : ReconnectBudget → ℕ → ReconnectBudget × ℕ
unfolding wait_of
wait_time b now = let b' = refill b now in (b', wait_of b' now)

unfoldable pub record_success : ReconnectBudget → ℕ → ReconnectBudget
record_success b now =
    let b' = refill b now in record b' { tokens = min ((b'.tokens + 1) % 2 ^ 32) b'.capacity }

unfoldable pub record_failure : ReconnectBudget → ℕ → ReconnectBudget
record_failure b now = let b' = refill b now in record b' { tokens = b'.tokens - 1 }

unfoldable pub tokens : ReconnectBudget → ℕ → ReconnectBudget × ℕ
tokens b now = let b' = refill b now in (b', b'.tokens)
