-- ===== src/Pacing/Backoff/Examples.antt =====
-- src/backoff.rs: the schedule at a concrete jitter.
use buddy3d_proxy.Prelude.{ℕ, ◌*◌, ◌≤◌, ◌≡◌, refl, arith}
use buddy3d_proxy.Pacing.Backoff.{default_backoff, reset, next_delay}
use buddy3d_proxy.Pacing.Backoff.Laws.{advance, nth_delay, schedule, nth_delay_bounds}

abbrev unchanged : ℕ → ℕ
unchanged ms = ms

delay_before_sixth : nth_delay unchanged default_backoff 5 ≡ 30_000
unfolding nth_delay advance next_delay reset default_backoff
delay_before_sixth = refl

nth_delay_bounds_example :
    (800 * schedule 2 ≤ nth_delay unchanged (advance unchanged 7 default_backoff) 2)
    × (nth_delay unchanged (advance unchanged 7 default_backoff) 2 ≤ 1200 * schedule 2)
nth_delay_bounds_example = nth_delay_bounds unchanged 7 2 (λ ms. omega arith)
