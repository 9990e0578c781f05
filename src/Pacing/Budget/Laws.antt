-- ===== src/Pacing/Budget/Laws.antt =====
-- src/reconnect_budget.rs: the bucket stays within its capacity, and `wait_time` is exact.
use buddy3d_proxy.Prelude.{
  ℕ, ◌+◌, ◌-◌, ◌*◌, ◌/◌, ◌^◌, ◌≤◌, ◌<◌, ◌≡◌, ◌⊎◌, inl, inr, arith, leb, Bool-cases,
}
use buddy3d_proxy.Pacing.Budget.{
  ReconnectBudget, refill, wait_of, wait_time, record_success, record_failure,
}
use native.Mathlib.Nat.{div-add-mod, mod-lt}

pub record IsValid (b : ReconnectBudget) : Type 0 where
  pub within : b.tokens ≤ b.capacity
  pub small : b.capacity < 2 ^ 31
  pub running : 0 < b.refill_period

pub refill-IsValid : (b : ReconnectBudget) (now : ℕ) → IsValid b → IsValid (refill b now)
unfolding refill
refill-IsValid b now v = ground arith

-- What `refill` leaves as it is, and the clock that it leaves behind.
pub refill_keeps :
    (b : ReconnectBudget) (now : ℕ)
    → ((refill b now).capacity ≡ b.capacity) × ((refill b now).refill_period ≡ b.refill_period)
unfolding refill
refill_keeps b now = ground arith

div-eq_zero_of_lt : (e p : ℕ) → e < p → e / p ≡ 0
div-eq_zero_of_lt e p h = grind arith

division : (e p : ℕ) → 0 < p → (e / p * p ≤ e) × (e < e / p * p + p)
division e p h = omega (arith, div-add-mod e p, mod-lt e h)

-- The three outcomes of `refill`, in the products that its division stands for.
abbrev pub Refilled : ReconnectBudget → ℕ → ReconnectBudget → Type 0
Refilled b now b' =
    ((b'.tokens ≡ b'.capacity)
      × (b'.last_refill ≡ now)
      × ((b.tokens ≡ b.capacity)
          ⊎ ((q : ℕ) × (b.capacity ≤ b.tokens + q) × (q * b.refill_period ≤ now - b.last_refill))))
    ⊎ ((q : ℕ) × (b'.tokens ≡ b.tokens + q)
        × (b.tokens + q < b.capacity)
        × (b'.last_refill ≡ b.last_refill + q * b.refill_period)
        × (q * b.refill_period ≤ now - b.last_refill)
        × (now - b.last_refill < q * b.refill_period + b.refill_period))

pub refill-Refilled : (b : ReconnectBudget) (now : ℕ) → IsValid b → Refilled b now (refill b now)
unfolding refill
refill-Refilled b now v =
    let q : ℕ = (now - b.last_refill) / b.refill_period in
    let (lo, hi) = division (now - b.last_refill) b.refill_period v.running in
    elim (Bool-cases (leb b.capacity b.tokens)) [
      | inl full ↦ rw full (inl (ground arith, ground arith, inl (ground arith)))
      | inr room ↦ elim (Bool-cases (leb b.capacity (b.tokens + q))) [
        | inl over ↦ inl (ground arith, ground arith, inr (q, ground arith, lo))
        | inr under ↦ inr (q, ground arith, ground arith, ground arith, lo, hi)
      ]
    ]

pub refill_clock :
    (b : ReconnectBudget) (now : ℕ)
    → IsValid b
    → b.last_refill ≤ now
    → (refill b now).last_refill ≤ now
refill_clock b now v h = ground (arith, refill-Refilled b now v)

-- Within one period of the last refill a bucket earns nothing.
refill_early :
    (b : ReconnectBudget) (now : ℕ)
    → now - b.last_refill < b.refill_period
    → ((refill b now).tokens ≡ b.tokens)
      × (((refill b now).last_refill ≡ b.last_refill) ⊎ ((refill b now).last_refill ≡ now))
unfolding refill
refill_early b now early =
    ground (arith, div-eq_zero_of_lt (now - b.last_refill) b.refill_period early)

-- `record_success` earns a token up to the capacity; `record_failure` spends one.
pub record_success-IsValid :
    (b : ReconnectBudget) (now : ℕ) → IsValid b → IsValid (record_success b now)
unfolding record_success
record_success-IsValid b now v = ground (arith, refill-IsValid b now v)

pub record_failure-IsValid :
    (b : ReconnectBudget) (now : ℕ) → IsValid b → IsValid (record_failure b now)
unfolding record_failure
record_failure-IsValid b now v = ground (arith, refill-IsValid b now v)

-- Once `wait_time` has answered at `now`, it allows an attempt as soon as that time has passed
-- (a valid budget, the clock not before the last refill, and a capacity of one at least).
pub wait_time_enough :
    (b : ReconnectBudget) (now : ℕ)
    → IsValid b
    → 0 < b.capacity
    → b.last_refill ≤ now
    → let answer = wait_time b now in (wait_time answer.0 (now + answer.1)).1 ≡ 0
unfolding wait_time
wait_time_enough b now v c h =
    let b' = refill b now in
    let w = wait_of b' now in
    unfold wait_of in
    ground (
      arith,
      refill-Refilled b now v,
      refill-IsValid b now v,
      refill_keeps b now,
      refill-Refilled b' (now + w) (refill-IsValid b now v),
      refill_keeps b' (now + w),
    )

-- And not before: for a valid budget, and the clock not before the last refill, a further wait is
-- asked for at any moment short of that time.
pub wait_time_least :
    (b : ReconnectBudget) (now d : ℕ)
    → IsValid b
    → b.last_refill ≤ now
    → d < (wait_time b now).1
    → 0 < (wait_time (wait_time b now).0 (now + d)).1
unfolding wait_time
wait_time_least b now d v h lt =
    let b' = refill b now in
    unfold wait_of in
    ground (
      arith,
      refill-Refilled b now v,
      refill-IsValid b now v,
      refill_keeps b now,
      refill_keeps b' (now + d),
      refill_early b' (now + d),
    )
