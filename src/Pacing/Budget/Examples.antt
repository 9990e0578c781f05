-- ===== src/Pacing/Budget/Examples.antt =====
-- src/reconnect_budget.rs: runs of its own tests, and the theorems at concrete buckets.
use buddy3d_proxy.Prelude.{ℕ, ◌+◌, ◌-◌, ◌*◌, ◌≤◌, ◌<◌, ◌≡◌, refl, arith, List, [], ◌∷◌}
use buddy3d_proxy.Pacing.Budget.{ReconnectBudget, new, refill, wait_time, record_failure}
use buddy3d_proxy.Pacing.Budget.Laws.{IsValid, wait_time_enough, wait_time_least}
use buddy3d_proxy.Pacing.Budget.Rate.{connects, ends, connects_rate}

abbrev drained : ReconnectBudget
drained = record { tokens = 0; capacity = 3; refill_period = 300; last_refill = 0 }

drained-IsValid : IsValid drained
drained-IsValid = omega arith

partial_progress : (wait_time (record_failure drained 450) 450).1 ≡ 150
unfolding wait_time record_failure refill
partial_progress = refl

no_idle_banking :
    (wait_time
      (record_failure (record_failure (record_failure (new 3 300 0) 3000) 3000) 3000)
      3000).1
    ≡ 300
unfolding wait_time record_failure refill new
no_idle_banking = refl

wait_time_enough_example :
    (wait_time (wait_time drained 100).0 (100 + (wait_time drained 100).1)).1 ≡ 0
wait_time_enough_example = wait_time_enough drained 100 drained-IsValid (omega arith) (omega arith)

wait_time_least_example : 0 < (wait_time (wait_time drained 100).0 (100 + 199)).1
unfolding wait_time refill
wait_time_least_example =
    wait_time_least drained 100 199 drained-IsValid (omega arith) (omega arith)

abbrev three_polls : List (ℕ × ℕ)
three_polls = (10, 20) ∷ (320, 330) ∷ (650, 660) ∷ []

connects_rate_example : connects drained three_polls * 300 ≤ 3 * 300 + (ends 0 three_polls - 0)
connects_rate_example =
    connects_rate drained 0 three_polls drained-IsValid (omega arith) (omega arith)
