-- ===== src/Pacing/Backoff/Laws.antt =====
-- src/backoff.rs: the schedule.
use buddy3d_proxy.Prelude.{
  ℕ, zero, suc, ◌+◌, ◌-◌, ◌*◌, ◌^◌, ◌≤◌, ◌<◌, ◌≡◌, refl, arith, min, ltb, get_elem?, [], ◌∷◌,
  if◌then◌else◌, Bool-cases, inl, inr, ◌∙◌,
}
use native.Mathlib.Nat.{zero-add}
use buddy3d_proxy.Pacing.Backoff.{
  ExpBackoff, default_backoff, reset, raw_delay, next_delay, IsJitter, or_default,
}

-- The backoff after `n` delays.
unfoldable pub advance : (ℕ → ℕ) → ℕ → ExpBackoff → ExpBackoff
advance jittered zero b = b
advance jittered (suc n) b = advance jittered n (next_delay jittered b).0

-- The delay that comes after `n` others, from a new or a reset backoff.
unfoldable pub nth_delay : (ℕ → ℕ) → ExpBackoff → ℕ → ℕ
nth_delay jittered b n = (next_delay jittered (advance jittered n (reset b))).1

advance_attempt :
    (jittered : ℕ → ℕ) (n : ℕ) (b : ExpBackoff)
    → b.attempt < 2 ^ 32
    → ((advance jittered n b).attempt ≡ min (b.attempt + n) (2 ^ 32 - 1))
      × ((advance jittered n b).base_secs ≡ b.base_secs)
      × ((advance jittered n b).cap_secs ≡ b.cap_secs)
unfolding advance next_delay
advance_attempt jittered zero b h = ground arith
advance_attempt jittered (suc n) b h =
    ground (arith, advance_attempt jittered n (next_delay jittered b).0)

-- 1, 2, 4, 8, 16, and 30 from then on.
abbrev pub schedule : ℕ → ℕ
schedule n = if ltb n 5 then 2 ^ n else 30

table : (n : ℕ) → or_default (get_elem? (1 ∷ 2 ∷ 4 ∷ 8 ∷ 16 ∷ []) n) 30 ≡ schedule n
table zero = refl
table (suc zero) = refl
table (suc (suc zero)) = refl
table (suc (suc (suc zero))) = refl
table (suc (suc (suc (suc zero)))) = refl
table (suc (suc (suc (suc (suc n))))) = ground arith

schedule_capped : (n : ℕ) → schedule (min n (2 ^ 32 - 1)) ≡ schedule n
schedule_capped n = elim (Bool-cases (ltb n 5)) [
  | inl few ↦ rw (min_few n (ground arith)) refl
  | inr many ↦ ground arith
]
  where
    min_few : (k : ℕ) → k < 5 → min k (2 ^ 32 - 1) ≡ k
    min_few k h = omega arith

raw_delay-advance :
    (jittered : ℕ → ℕ) (m n : ℕ)
    → raw_delay (advance jittered n (reset (advance jittered m default_backoff))) ≡ schedule n
unfolding raw_delay reset default_backoff
raw_delay-advance jittered m n =
    let b = advance jittered m default_backoff in
    let (_, base, cap) = advance_attempt jittered m default_backoff (omega arith) in
    let (attempt, base', cap') = advance_attempt jittered n (reset b) (omega arith) in
    rw (attempt, base', cap', base, cap, zero-add) (table _ ∙ schedule_capped n)

-- Whatever came before a `reset`, the delay after `n` more is the scheduled number of seconds, less
-- or more by a fifth at most, for any jitter within its range.
pub nth_delay_bounds :
    (jittered : ℕ → ℕ) (m n : ℕ)
    → IsJitter jittered
    → let b = advance jittered m default_backoff in
      (800 * schedule n ≤ nth_delay jittered b n) × (nth_delay jittered b n ≤ 1200 * schedule n)
unfolding nth_delay next_delay
nth_delay_bounds jittered m n h =
    rw (raw_delay-advance jittered m n) (omega (arith, h (schedule n * 1000)))
