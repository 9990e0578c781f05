-- ===== src/Pacing/RateLimit.antt =====
-- src/rate_limit.rs and src/prusa/client.rs: the token bucket in front of every Prusa request.
-- Times and durations are nanoseconds; each function takes the time of its `Instant::now()`. The
-- mutex around `Inner` makes each of them one step. A refill period under one second makes the
-- source's division panic; the theorems have it at least that long.
pub mod Laws
mod Examples
use buddy3d_proxy.Prelude.{
  ℕ, zero, suc, ◌+◌, ◌-◌, ◌*◌, ◌/◌, ◌%◌, ◌^◌, min, leb, ltb, if◌then◌else◌, ◌&&◌, Bool, true, false,
  Option, none, some,
}

pub data Outcome : Type 0 where
  success client_error server_or_network_error : Outcome

pub record Inner : Type 0 where
  pub tokens : ℕ
  pub last_refill : ℕ

pub record RateLimiter : Type 0 where
  pub inner : Inner
  pub cap : ℕ
  pub refill_period : ℕ

unfoldable pub new : ℕ → ℕ → ℕ → RateLimiter
new cap refill_period now = record {
  inner = record { tokens = cap; last_refill = now };
  cap = cap;
  refill_period = refill_period;
}

abbrev pub as_secs : ℕ → ℕ
as_secs ns = ns / 1_000_000_000

abbrev with_inner : RateLimiter → Inner → RateLimiter
with_inner l inner = record l { inner = inner }

unfoldable pub tick : RateLimiter → ℕ → RateLimiter
tick l now =
    let elapsed = now - l.inner.last_refill in
    let earned = as_secs elapsed / as_secs l.refill_period % 2 ^ 32 in
    if leb l.refill_period elapsed && ltb l.inner.tokens l.cap
    then with_inner l
        (record { tokens = min ((l.inner.tokens + earned) % 2 ^ 32) l.cap; last_refill = now })
    else l

-- One round of the loop of `acquire`: the limiter, and how long to sleep, if there is no token.
unfoldable pub acquire_round : RateLimiter → ℕ → RateLimiter × Option ℕ
unfolding tick
acquire_round l now =
    let l' = tick l now in
    if ltb 0 l'.inner.tokens
    then (
      with_inner l' (record { tokens = l'.inner.tokens - 1; last_refill = l'.inner.last_refill }),
      none,
    )
    else (l', some (l'.refill_period - (now - l'.inner.last_refill)))

-- The loop, on fuel. A sleep ends late by `late` of the time at which it was due. The result is the
-- limiter and the time at which the permit was given; `none` means that the fuel ran out.
unfoldable pub acquire : (ℕ → ℕ) → ℕ → RateLimiter → ℕ → Option (RateLimiter × ℕ)
acquire late zero l now = none
acquire late (suc fuel) l now =
    let (l', parked) = acquire_round l now in
    elim parked [
      | none ↦ some (l', now)
      | some wait ↦ acquire late fuel l' (now + wait + late (now + wait))
    ]

unfoldable pub refund : RateLimiter → RateLimiter
refund l =
    if ltb l.inner.tokens l.cap
    then with_inner l (record { tokens = l.inner.tokens + 1; last_refill = l.inner.last_refill })
    else l

abbrev consumes : Outcome → Bool
consumes server_or_network_error = true
consumes _ = false

-- `Permit::complete`. A permit that is dropped without it is spent.
unfoldable pub complete : RateLimiter → Outcome → RateLimiter
unfolding refund
complete l outcome = if consumes outcome then l else refund l

unfoldable pub tokens : RateLimiter → ℕ → RateLimiter × ℕ
tokens l now = let l' = tick l now in (l', l'.inner.tokens)

-- What `reqwest` answers: a response with a status, or an error.
pub data Reply : Type 0 where
  response : ℕ → Reply
  network_error : Reply

abbrev pub is_server_error : ℕ → Bool
is_server_error status = leb 500 status && ltb status 600

abbrev pub is_client_error : ℕ → Bool
is_client_error status = leb 400 status && ltb status 500

unfoldable pub outcome_of : Reply → Outcome
outcome_of (response status) =
    if is_server_error status
    then server_or_network_error
    else if is_client_error status
    then client_error
    else success
outcome_of network_error = server_or_network_error

pub data SendResult : Type 0 where
  ok : ℕ → SendResult
  network : SendResult
  server : ℕ → SendResult
  client : ℕ → SendResult

unfoldable pub classify : Reply → SendResult
classify network_error = network
classify (response status) =
    if is_server_error status
    then server status
    else if is_client_error status
    then client status
    else ok status

-- `PrusaClient::send`, for a request that is answered by `reply`.
unfoldable pub send : (ℕ → ℕ) → ℕ → RateLimiter → ℕ → Reply → Option (RateLimiter × SendResult)
unfolding acquire complete outcome_of classify
send late fuel l now reply = elim (acquire late fuel l now) [
  | none ↦ none
  | some (l', granted) ↦ some (complete l' (outcome_of reply), classify reply)
]
