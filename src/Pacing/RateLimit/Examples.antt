-- ===== src/Pacing/RateLimit/Examples.antt =====
-- src/rate_limit.rs: the theorems at the limiter that `main` builds, three tokens and a minute each.
use buddy3d_proxy.Prelude.{ℕ, ◌≡◌, refl, arith, some}
use buddy3d_proxy.Pacing.RateLimit.{RateLimiter, acquire, send, tokens, response, server}
use buddy3d_proxy.Pacing.RateLimit.Laws.{Grant, acquire-Grant, idle_refill_at_once}

abbrev minute : ℕ
minute = 60_000_000_000

abbrev prompt : ℕ → ℕ
prompt t = 0

abbrev empty : RateLimiter
empty = record { inner = record { tokens = 0; last_refill = 0 }; cap = 3; refill_period = minute }

abbrev full : RateLimiter
full = record { inner = record { tokens = 3; last_refill = 0 }; cap = 3; refill_period = minute }

acquire-Grant_example : Grant prompt empty 1 minute (acquire prompt 2 empty 1)
acquire-Grant_example =
    acquire-Grant prompt empty 1 minute 0 (omega arith) (omega arith) (omega arith)
      (λ t. omega arith) (omega arith)

idle_refill_at_once_example :
    (done : RateLimiter) × (send prompt 1 full minute (response 503) ≡ some (done, server 503))
    × ((tokens done minute).1 ≡ 3)
idle_refill_at_once_example =
    idle_refill_at_once prompt full minute 0 503 (omega arith) refl (omega arith) (omega arith) refl
