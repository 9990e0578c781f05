-- ===== src/Pacing/Budget/Rate.antt =====
-- src/reconnect_budget.rs: how often failing connects can happen over any stretch of time.
use buddy3d_proxy.Prelude.{
  ℕ, suc, ◌+◌, ◌-◌, ◌*◌, ◌≤◌, ◌<◌, ◌≡◌, ap, refl, ◌∙◌, ==_iff, inl, inr, arith, leb, ◌==◌, min,
  List, [], ◌∷◌, if◌then◌else◌, Bool, true, false, Bool-cases, inl, inr,
}
use buddy3d_proxy.Pacing.Budget.{ReconnectBudget, refill, wait_of, wait_time, record_failure}
use buddy3d_proxy.Pacing.Budget.Laws.{
  IsValid, Refilled, refill-IsValid, refill_keeps, refill-Refilled, refill_clock,
  record_failure-IsValid,
}

-- A caller that polls at `start` connects only if no wait is asked for; the connect fails at
-- `finish`.
abbrev pub poll : ReconnectBudget → ℕ → ℕ → ReconnectBudget × Bool
poll b start finish =
    let answer = wait_time b start in
    if answer.1 == 0 then (record_failure answer.0 finish, true) else (answer.0, false)

-- How many connects a sequence of polls makes.
pub connects : ReconnectBudget → List (ℕ × ℕ) → ℕ
connects b [] = 0
connects b ((start, finish) ∷ rest) =
    let next = poll b start finish in (if next.1 then 1 else 0) + connects next.0 rest

-- The polls follow one another from `now` on.
abbrev pub Ordered : ℕ → List (ℕ × ℕ) → Type 0
Ordered now [] = Unit {0}
Ordered now ((start, finish) ∷ rest) = (now ≤ start) × (start ≤ finish) × Ordered finish rest

abbrev pub ends : ℕ → List (ℕ × ℕ) → ℕ
ends now [] = now
ends now ((start, finish) ∷ rest) = ends finish rest

-- What the bucket holds at a time, a token counted as one refill period.
energy : ReconnectBudget → ℕ → ℕ
energy b now =
    if leb b.capacity b.tokens
    then b.capacity * b.refill_period
    else min (b.capacity * b.refill_period) (b.tokens * b.refill_period + (now - b.last_refill))

energy_later : (b : ReconnectBudget) (s t : ℕ) → s ≤ t → energy b t ≤ energy b s + (t - s)
unfolding energy
energy_later b s t h = ground arith

mul-le : (a b p : ℕ) → a ≤ b → a * p ≤ b * p
mul-le a b p h = grind arith

mul-lt : (a b p : ℕ) → a < b → a * p + p ≤ b * p
mul-lt a b p h = omega (arith, mul-le (suc a) b p h)

-- A refill turns time into tokens and adds nothing.
Refilled-energy :
    (b b' : ReconnectBudget) (now : ℕ)
    → Refilled b now b'
    → b.tokens ≤ b.capacity
    → b.last_refill ≤ now
    → b'.capacity ≡ b.capacity
    → b'.refill_period ≡ b.refill_period
    → energy b' now ≡ energy b now
unfolding energy
Refilled-energy b b' now (inl (t, l, inl e)) fits h c p =
    ground (arith, ap (λ (x : ℕ). x * b.refill_period) c)
Refilled-energy b b' now (inl (t, l, inr (q, over, paid))) fits h c p =
    rw (c, p) (ground (arith, mul-le b.capacity (b.tokens + q) b.refill_period over))
Refilled-energy b b' now (inr (q, t, under, l, paid, rest)) fits h c p =
    rw (c, p, t) (ground (arith))

energy-refill :
    (b : ReconnectBudget) (now : ℕ)
    → IsValid b
    → b.last_refill ≤ now
    → energy (refill b now) now ≡ energy b now
energy-refill b now v h =
    Refilled-energy b (refill b now) now (refill-Refilled b now v) v.within h (refill_keeps b now).0
      (refill_keeps b now).1

-- A spent token is gone from a bucket that has just been refilled.
energy_spent :
    (b b' : ReconnectBudget) (now : ℕ)
    → Refilled b now b'
    → b'.capacity ≡ b.capacity
    → b'.refill_period ≡ b.refill_period
    → 0 < b'.tokens
    → energy (record b' { tokens = b'.tokens - 1 }) now + b.refill_period ≤ energy b' now
unfolding energy
energy_spent b b' now (inl (t, l, _)) c p positive =
    rw p (ground (arith, mul-lt (b'.tokens - 1) b'.capacity b.refill_period))
energy_spent b b' now (inr (q, t, under, l, paid, rest)) c p positive = rw p (
    ground (
      arith,
      mul-lt (b'.tokens - 1) b'.tokens b.refill_period,
      mul-lt b'.tokens b'.capacity b.refill_period,
    ))

-- A failure spends a token's worth, if a token is there.
energy-record_failure :
    (b : ReconnectBudget) (now : ℕ)
    → IsValid b
    → b.last_refill ≤ now
    → 0 < (refill b now).tokens
    → energy (record_failure b now) now + b.refill_period ≤ energy b now
unfolding record_failure
energy-record_failure b now v h positive = rw (← energy-refill b now v h) (
    energy_spent b (refill b now) now (refill-Refilled b now v) (refill_keeps b now).0
      (refill_keeps b now).1 positive)

-- A wait of zero means that a token is there.
wait-zero :
    (b : ReconnectBudget) (now : ℕ)
    → IsValid b
    → b.last_refill ≤ now
    → (wait_time b now).1 ≡ 0
    → 0 < (refill b now).tokens
unfolding wait_time wait_of
wait-zero b now v h e =
    ground (arith, refill-Refilled b now v, refill-IsValid b now v, refill_keeps b now)

record IsAt (b : ReconnectBudget) (now : ℕ) : Type 0 where
  valid : IsValid b
  clock : b.last_refill ≤ now

record_failure_period :
    (b : ReconnectBudget) (now : ℕ) → (record_failure b now).refill_period ≡ b.refill_period
unfolding record_failure
record_failure_period b now = (refill_keeps b now).1

record_failure_clock :
    (b : ReconnectBudget) (now : ℕ)
    → IsValid b
    → b.last_refill ≤ now
    → (record_failure b now).last_refill ≤ now
unfolding record_failure
record_failure_clock b now v h = refill_clock b now v h

-- One poll keeps the bucket valid, and pays one period for a connect.
record Polled (b : ReconnectBudget) (start finish : ℕ) (next : ReconnectBudget × Bool)
    : Type 0 where
  at : IsAt next.0 finish
  period : next.0.refill_period ≡ b.refill_period
  paid :
      energy next.0 finish + (if next.1 then b.refill_period else 0)
      ≤ energy b start + (finish - start)

wait_time-refill : (b : ReconnectBudget) (now : ℕ) → (wait_time b now).0 ≡ refill b now
unfolding wait_time
wait_time-refill b now = refl

tokens_kept : (b : ReconnectBudget) (now : ℕ) → IsValid b → 0 < b.tokens → 0 < (refill b now).tokens
tokens_kept b now v h = ground (arith, refill-Refilled b now v, refill_keeps b now)

failure-Polled :
    (b : ReconnectBudget) (start finish : ℕ)
    → IsAt b start
    → start ≤ finish
    → 0 < (refill b start).tokens
    → Polled b start finish (record_failure (refill b start) finish, true)
failure-Polled b start finish a le h =
    let b' = refill b start in
    let v = refill-IsValid b start a.valid in
    let c = refill_clock b start a.valid a.clock in
    let spent = energy-record_failure b' finish v (omega arith) (tokens_kept b' finish v h) in
    record {
      at = record {
        valid = record_failure-IsValid b' finish v;
        clock = record_failure_clock b' finish v (omega arith);
      };
      period = record_failure_period b' finish ∙ (refill_keeps b start).1;
      paid = omega (
        arith,
        spent,
        energy_later b' start finish le,
        energy-refill b start a.valid a.clock,
        (refill_keeps b start).1,
      );
    }

poll-Polled :
    (b : ReconnectBudget) (start finish : ℕ)
    → IsAt b start
    → start ≤ finish
    → Polled b start finish (poll b start finish)
poll-Polled b start finish a le = elim (Bool-cases ((wait_time b start).1 == 0)) [
  | inl free ↦
      rw (free, wait_time-refill)
        (failure-Polled b start finish a le
          (wait-zero b start a.valid a.clock ((==_iff _ 0).0 free)))
  | inr asked ↦
      rw (asked, wait_time-refill)
        (record {
          at = record {
            valid = refill-IsValid b start a.valid;
            clock = omega (arith, refill_clock b start a.valid a.clock);
          };
          period = (refill_keeps b start).1;
          paid = omega (
            arith,
            energy_later (refill b start) start finish le,
            energy-refill b start a.valid a.clock,
          );
        })
]

ends-le : (now : ℕ) (polls : List (ℕ × ℕ)) → Ordered now polls → now ≤ ends now polls
ends-le now [] o = omega arith
ends-le now ((start, finish) ∷ rest) (s, f, o) = omega (arith, ends-le finish rest o)

add_payment :
    (made : Bool) (k p before later final : ℕ)
    → k * p ≤ later + final
    → later + (if made then p else 0) ≤ before
    → ((if made then 1 else 0) + k) * p ≤ before + final
add_payment true k p before later final h g = omega arith
add_payment false k p before later final h g = omega arith

connects_paid :
    (b : ReconnectBudget) (now : ℕ) (polls : List (ℕ × ℕ))
    → IsAt b now
    → Ordered now polls
    → connects b polls * b.refill_period ≤ energy b now + (ends now polls - now)
unfolding connects
connects_paid b now [] a o = omega arith
connects_paid b now ((start, finish) ∷ rest) a (s, f, o) =
    let next = poll b start finish in
    let p =
      poll-Polled b start finish (record { valid = a.valid; clock = omega (arith, a.clock) }) f in
    let later = rw p.period at (connects_paid next.0 finish rest p.at o) in
    omega (
      arith,
      add_payment next.1 (connects next.0 rest) b.refill_period (energy b start + (finish - start))
          (energy next.0 finish) (ends finish rest - finish) later p.paid,
      energy_later b now start s,
      ends-le finish rest o,
    )

energy-le : (b : ReconnectBudget) (now : ℕ) → energy b now ≤ b.capacity * b.refill_period
unfolding energy
energy-le b now = ground arith

-- Polled at any times by callers whose connects all fail, the budget allows at most its capacity,
-- and one connect more for each refill period that the polls span. The bucket is valid, its last
-- refill not after the polls begin, and the polls come in order.
pub connects_rate :
    (b : ReconnectBudget) (now : ℕ) (polls : List (ℕ × ℕ))
    → IsValid b
    → b.last_refill ≤ now
    → Ordered now polls
    → connects b polls * b.refill_period ≤ b.capacity * b.refill_period + (ends now polls - now)
connects_rate b now polls v h o =
    omega (arith, connects_paid b now polls (record { valid = v; clock = h }) o, energy-le b now)
