-- ===== src/Pacing/RateLimit/Laws.antt =====
-- src/rate_limit.rs, src/prusa/client.rs: the bucket's bounds, that a caller gets its permit, and
-- what a request costs.
use buddy3d_proxy.Prelude.{
  ℕ, suc, ◌+◌, ◌-◌, ◌*◌, ◌/◌, ◌^◌, ◌≤◌, ◌<◌, true, Option, none, some, List, [], ◌∷◌, ◌≡◌, refl,
  arith, ◌∙◌, inl, inr, ◌⊎◌,
}
use buddy3d_proxy.Pacing.RateLimit.{
  RateLimiter, Outcome, tick, acquire_round, acquire, refund, complete, tokens, Reply, response,
  SendResult, ok, network, server, client, send, outcome_of, classify, as_secs, is_server_error,
}

pub record IsValid (l : RateLimiter) : Type 0 where
  pub within : l.inner.tokens ≤ l.cap
  pub some_room : 0 < l.cap
  pub small : l.cap < 2 ^ 31
  pub second : 1_000_000_000 ≤ l.refill_period

pub tick-IsValid : (l : RateLimiter) (now : ℕ) → IsValid l → IsValid (tick l now)
unfolding tick
tick-IsValid l now v = ground arith

-- Refills and refunds never pass the cap, and a permit never goes below zero.
pub acquire_round-IsValid :
    (l : RateLimiter) (now : ℕ) → IsValid l → IsValid (acquire_round l now).0
unfolding acquire_round tick
acquire_round-IsValid l now v = ground (arith, tick-IsValid l now v)

pub complete-IsValid : (l : RateLimiter) (o : Outcome) → IsValid l → IsValid (complete l o)
unfolding complete refund
complete-IsValid l o v = ground arith

div-pos : (e p : ℕ) → 0 < p → p ≤ e → 0 < e / p
div-pos e p h g = grind arith

earned_pos :
    (elapsed period : ℕ)
    → 1_000_000_000 ≤ period
    → period ≤ elapsed
    → 0 < as_secs elapsed / as_secs period
earned_pos e p h g = div-pos (as_secs e) (as_secs p) (omega arith) (omega arith)

div-le : (e p : ℕ) → e / p ≤ e
div-le e p = grind arith

-- A tick after a whole period, and less than 2^31 seconds, leaves a token.
tick_pos :
    (l : RateLimiter) (now : ℕ)
    → IsValid l
    → l.refill_period ≤ now - l.inner.last_refill
    → now - l.inner.last_refill < 2 ^ 31 * 1_000_000_000
    → 0 < (tick l now).inner.tokens
unfolding tick
tick_pos l now v due h =
    let e = now - l.inner.last_refill in
    ground (
      arith,
      earned_pos e l.refill_period v.second due,
      div-le (as_secs e) (as_secs l.refill_period),
    )

-- The state that a granted permit leaves.
abbrev spent : RateLimiter → RateLimiter
spent l = record l {
  inner = record { tokens = l.inner.tokens - 1; last_refill = l.inner.last_refill };
}

acquire_granted :
    (late : ℕ → ℕ) (fuel : ℕ) (l : RateLimiter) (now : ℕ)
    → 0 < (tick l now).inner.tokens
    → acquire late (suc fuel) l now ≡ some (spent (tick l now), now)
unfolding acquire acquire_round
acquire_granted late fuel l now h = ground arith

abbrev limiter_of : RateLimiter → Option (RateLimiter × ℕ) → RateLimiter
limiter_of l none = l
limiter_of l (some (after, t)) = after

acquire_parked :
    (late : ℕ → ℕ) (fuel : ℕ) (l : RateLimiter) (now : ℕ)
    → (tick l now).inner.tokens ≡ 0
    → let wait = (tick l now).refill_period - (now - (tick l now).inner.last_refill) in
      acquire late (suc fuel) l now
      ≡ acquire late fuel (tick l now) (now + wait + late (now + wait))
unfolding acquire acquire_round
acquire_parked late fuel l now e = ground arith

tick_keeps :
    (l : RateLimiter) (now : ℕ)
    → ((tick l now).cap ≡ l.cap) × ((tick l now).refill_period ≡ l.refill_period)
unfolding tick
tick_keeps l now = ground arith

-- An empty bucket has not reached the end of its period: a tick would have filled it.
tick_empty :
    (l : RateLimiter) (now : ℕ)
    → IsValid l
    → l.inner.last_refill ≤ now
    → now - l.inner.last_refill < 2 ^ 31 * 1_000_000_000
    → (tick l now).inner.tokens ≡ 0
    → ((tick l now).inner.last_refill ≡ l.inner.last_refill)
      × (now - l.inner.last_refill < l.refill_period)
unfolding tick
tick_empty l now v c h e = ground (arith, tick_pos l now v)

-- What a caller of `acquire` gets.
pub record Grant (late : ℕ → ℕ) (l : RateLimiter) (now bound : ℕ) (r : Option (RateLimiter × ℕ))
    : Type 0 where
  pub after : RateLimiter
  pub granted_at : ℕ
  pub result : r ≡ some (after, granted_at)
  pub not_before : now ≤ granted_at
  pub soon : granted_at ≤ now + bound
  pub valid : IsValid after
  pub taken : after.inner.tokens < after.cap

spent-IsValid :
    (l : RateLimiter)
    → IsValid l
    → 0 < l.inner.tokens
    → IsValid (spent l) × ((spent l).inner.tokens < (spent l).cap)
spent-IsValid l v h = ground arith

zero_or_pos : (n : ℕ) → (n ≡ 0) ⊎ (0 < n)
zero_or_pos n = omega arith

granted :
    (late : ℕ → ℕ) (fuel : ℕ) (l : RateLimiter) (now bound : ℕ)
    → IsValid l
    → 0 < (tick l now).inner.tokens
    → Grant late l now bound (acquire late (suc fuel) l now)
granted late fuel l now bound v h =
    let (valid, taken) = spent-IsValid (tick l now) (tick-IsValid l now v) h in
    record {
      after = spent (tick l now);
      granted_at = now;
      result = acquire_granted late fuel l now h;
      not_before = omega arith;
      soon = omega arith;
      valid = valid;
      taken = taken;
    }

parked :
    (late : ℕ → ℕ) (l : RateLimiter) (now bound : ℕ)
    → IsValid l
    → l.inner.last_refill ≤ now
    → now - l.inner.last_refill < 2 ^ 31 * 1_000_000_000
    → ((t : ℕ) → l.refill_period + late t ≤ bound)
    → bound < 2 ^ 31 * 1_000_000_000
    → (tick l now).inner.tokens ≡ 0
    → (fuel : ℕ) → Grant late l now bound (acquire late (suc (suc fuel)) l now)
parked late l now bound v c h b small e fuel =
    let l' = tick l now in
    let (last, early) = tick_empty l now v c h e in
    let (cap, period) = tick_keeps l now in
    let due = now + (l'.refill_period - (now - l'.inner.last_refill)) in
    let woken = due + late due in
    let g =
      granted late fuel l' woken 0 (tick-IsValid l now v)
        (tick_pos l' woken (tick-IsValid l now v) (omega arith) (omega (arith, b due))) in
    record {
      after = g.after;
      granted_at = g.granted_at;
      result = acquire_parked late (suc fuel) l now e ∙ g.result;
      not_before = omega (arith, g.not_before);
      soon = omega (arith, g.soon, b due);
      valid = g.valid;
      taken = g.taken;
    }

-- A caller gets its permit in two rounds of the loop at most, within the refill period and what the
-- sleep is late by, when nobody else takes the token first. The bucket is valid, and less than 2^31
-- seconds pass without a refill or in the sleep.
pub acquire-Grant :
    (late : ℕ → ℕ) (l : RateLimiter) (now bound fuel : ℕ)
    → IsValid l
    → l.inner.last_refill ≤ now
    → now - l.inner.last_refill < 2 ^ 31 * 1_000_000_000
    → ((t : ℕ) → l.refill_period + late t ≤ bound)
    → bound < 2 ^ 31 * 1_000_000_000
    → Grant late l now bound (acquire late (suc (suc fuel)) l now)
acquire-Grant late l now bound fuel v c h b small = elim (zero_or_pos (tick l now).inner.tokens) [
  | inl e ↦ parked late l now bound v c h b small e fuel
  | inr p ↦ granted late (suc fuel) l now bound v p
]

-- What a request leaves spent, by its result.
abbrev pub cost : SendResult → ℕ
cost (ok status) = 0
cost (client status) = 0
cost (server status) = 1
cost network = 1

-- The bucket after ticks at some times, which may refill it and take nothing from it
abbrev pub tick_all : RateLimiter → List ℕ → RateLimiter
tick_all l [] = l
tick_all l (t ∷ ts) = tick_all (tick l t) ts

tick_all-IsValid : (l : RateLimiter) (ts : List ℕ) → IsValid l → IsValid (tick_all l ts)
tick_all-IsValid l [] v = v
tick_all-IsValid l (t ∷ ts) v = tick_all-IsValid (tick l t) ts (tick-IsValid l t v)

-- A permit is one token of the bucket, as ticks have left it.
pub record IsOneToken (l : RateLimiter) (now : ℕ) (after : RateLimiter) : Type 0 where
  pub later : List ℕ
  pub had : 0 < (tick_all l (now ∷ later)).inner.tokens
  pub one_less : after ≡ spent (tick_all l (now ∷ later))

-- What a request does to the bucket: the ticks of `acquire` leave a token at least, and the tokens
-- behind the request and its cost add up to those that the ticks leave.
pub record Paid (l : RateLimiter) (now : ℕ) (reply : Reply) (r : Option (RateLimiter × SendResult))
    : Type 0 where
  pub done : RateLimiter
  pub result : r ≡ some (done, classify reply)
  pub later : List ℕ
  pub had : 0 < (tick_all l (now ∷ later)).inner.tokens
  pub balance : done.inner.tokens + cost (classify reply) ≡ (tick_all l (now ∷ later)).inner.tokens

idle_acquire :
    (late : ℕ → ℕ) (fuel : ℕ) (l : RateLimiter) (now : ℕ)
    → IsValid l
    → l.inner.tokens ≡ l.cap
    → acquire late (suc fuel) l now ≡ some (spent l, now)
unfolding acquire acquire_round
idle_acquire late fuel l now v full = ground arith

idle_tick :
    (l : RateLimiter) (now : ℕ)
    → IsValid l
    → l.inner.tokens ≡ l.cap
    → l.refill_period ≤ now - l.inner.last_refill
    → now - l.inner.last_refill < 2 ^ 31 * 1_000_000_000
    → (tick (spent l) now).inner.tokens ≡ l.cap
unfolding tick
idle_tick l now v full due h =
    let e = now - l.inner.last_refill in
    ground (
      arith,
      earned_pos e l.refill_period v.second due,
      div-le (as_secs e) (as_secs l.refill_period),
    )

-- A full bucket that has stood idle for a period gives a failed request's token back at the very
-- moment it is spent: while the bucket is full its refill clock stands still.
pub idle_refill_at_once :
    (late : ℕ → ℕ) (l : RateLimiter) (now fuel status : ℕ)
    → IsValid l
    → l.inner.tokens ≡ l.cap
    → l.refill_period ≤ now - l.inner.last_refill
    → now - l.inner.last_refill < 2 ^ 31 * 1_000_000_000
    → is_server_error status ≡ true
    → (done : RateLimiter) × (send late (suc fuel) l now (response status)
        ≡ some (done, server status))
      × ((tokens done now).1 ≡ l.cap)
unfolding send complete outcome_of classify tokens
idle_refill_at_once late l now fuel status v full due h s = (
  spent l,
  rw (idle_acquire late fuel l now v full, send) (rw s refl),
  idle_tick l now v full due h,
)
