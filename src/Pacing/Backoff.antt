-- ===== src/Pacing/Backoff.antt =====
-- src/backoff.rs: the capped exponential backoff of the reconnect loop.
-- `attempt` is a `u32` and saturates. The jitter is drawn from `[0.8, 1.2]` by the crate `rand` and
-- multiplied in floating point: `jittered` is the product that a draw makes of a delay in
-- milliseconds, and `IsJitter` is the range that its documentation gives.
pub mod Laws
mod Examples
use buddy3d_proxy.Prelude.{
  ℕ, ◌+◌, ◌-◌, ◌*◌, ◌/◌, ◌^◌, ◌≤◌, min, List, [], ◌∷◌, Option, none, some, get_elem?,
}

pub record ExpBackoff : Type 0 where
  pub attempt : ℕ
  pub base_secs : List ℕ
  pub cap_secs : ℕ

unfoldable pub default_backoff : ExpBackoff
default_backoff = record { attempt = 0; base_secs = 1 ∷ 2 ∷ 4 ∷ 8 ∷ 16 ∷ []; cap_secs = 30 }

unfoldable pub reset : ExpBackoff → ExpBackoff
reset b = record b { attempt = 0 }

abbrev pub or_default : Option ℕ → ℕ → ℕ
or_default none d = d
or_default (some n) d = n

unfoldable pub raw_delay : ExpBackoff → ℕ
raw_delay b = or_default (get_elem? b.base_secs b.attempt) b.cap_secs

abbrev pub IsJitter : (ℕ → ℕ) → Type 0
IsJitter jittered = (ms : ℕ) → (8 * ms ≤ 10 * jittered ms) × (10 * jittered ms ≤ 12 * ms)

-- The delay is in milliseconds.
unfoldable pub next_delay : (ℕ → ℕ) → ExpBackoff → ExpBackoff × ℕ
unfolding raw_delay
next_delay jittered b =
    (record b { attempt = min (b.attempt + 1) (2 ^ 32 - 1) }, jittered (raw_delay b * 1000))
