-- ===== src/Policies/Timestamps/Examples.antt =====
-- The theorems on timestamps at concrete inputs.
use scylla_rust_driver.Prelude.{
  ℕ, ◌+◌, ◌-◌, ◌*◌, ◌/◌, ◌^◌, ◌≡◌, ◌≢◌, refl, Option, none, some, [], ◌∷◌, arith, ltb,
  if◌then◌else◌,
}
use scylla_rust_driver.Prelude.Int.{ℤ, pos, negsuc}
use scylla_rust_driver.Policies.Timestamps.{
  MonotonicTimestampGenerator, MonotonicTimestampGeneratorWarningsCfg, Threads, new,
  with_warning_times, suc_ℤ, increment, checked_i64, micros_as_i64, warn_again, check_skew,
  compute_next, compare_exchange, start, load, attempt, next_timestamp,
}
use scylla_rust_driver.Policies.Timestamps.Monotone.{
  Step, Reach, Descends, Advances, Reach-IsDescending, next_timestamp-lt,
}

-- An `Instant` of 63 bits.
abbrev add_63 : ℕ → ℕ → Option ℕ
add_63 a b = if ltb (a + b) (2 ^ 63) then some (a + b) else none

attempted : Option Threads → Threads
attempted none = start (new 0)
attempted (some s) = s

-- Two threads load, the second one returns 70, the first one fails and tries again while the clock
-- is behind.
first_done : Threads
unfolding load start new attempt compute_next compare_exchange attempted increment check_skew
    checked_i64 micros_as_i64 warn_again
first_done = attempted (attempt add_63 (some 70_000) 0 2 (load 2 (load 1 (start (new 0)))))

failed_once : Threads
unfolding first_done load start new attempt compute_next compare_exchange attempted increment
    check_skew
failed_once = attempted (attempt add_63 (some 60_000) 0 1 first_done)

both_done : Threads
unfolding failed_once first_done load start new attempt compute_next compare_exchange attempted
    increment check_skew checked_i64 micros_as_i64 warn_again
both_done = attempted (attempt add_63 (some 60_000) 0 1 (load 1 failed_once))

both_returned : both_done.returned ≡ pos 71 ∷ pos 70 ∷ []
unfolding both_done
both_returned = refl

run : Reach add_63 (start (new 0)) both_done
unfolding both_done
run =
    Reach.then
      (Reach.then
        (Reach.then
          (Reach.then (Reach.then (Reach.then (Reach.here _) (Step.loads 1 _)) (Step.loads 2 _))
            (Step.attempts (some 70_000) 0 2 _ first_done refl))
          (Step.attempts (some 60_000) 0 1 _ failed_once refl))
        (Step.loads 1 _))
      (Step.attempts (some 60_000) 0 1 _ both_done refl)

Reach-IsDescending_example : Descends (suc_ℤ both_done.generator.last) both_done.returned
Reach-IsDescending_example = Reach-IsDescending add_63 (new 0) both_done run

-- The last timestamp is two seconds ahead of the clock.
abbrev ahead : MonotonicTimestampGenerator
unfolding new
ahead = record (new 7) { last = pos 2_000_005 }

warning_fits :
    (cfg : MonotonicTimestampGeneratorWarningsCfg)
    → ahead.config ≡ some cfg
    → add_63 ahead.last_warning cfg.warning_interval ≢ none
unfolding ahead
warning_fits cfg e = ground (arith, e)

next_timestamp-lt_example :
    (t : ℤ) × (g : MonotonicTimestampGenerator) × (next_timestamp add_63 (some 5000) 0 ahead
      ≡ some (t, g))
    × Advances add_63 5 ahead t g
unfolding ahead
next_timestamp-lt_example =
    next_timestamp-lt add_63 5000 0 ahead (omega arith) (omega arith) warning_fits

-- With the interval `Duration::MAX`, the same call panics.
panics :
    next_timestamp add_63
      (some 5000)
      0
      (with_warning_times 1_000_000_000 (2 ^ 64 * 1_000_000_000 - 1) ahead)
    ≡ none
unfolding next_timestamp with_warning_times compute_next check_skew checked_i64 micros_as_i64
    warn_again ahead
panics = refl

-- The threshold `Duration::MAX` is -1 as an `i64`, so that every skew is above it.
threshold_wraps : micros_as_i64 ((2 ^ 64 * 1_000_000_000 - 1) / 1000) ≡ negsuc 0
unfolding micros_as_i64
threshold_wraps = refl
