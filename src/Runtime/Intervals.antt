-- ===== src/Runtime/Intervals.antt =====
-- How many ticks of a scheduler were missed (missedScheduledIntervals of collector/runtime.go).
use harry_performance_scrape.Prelude.{ℕ, ◌-◌, ◌/◌, ◌≤◌, ◌<◌, ◌≡◌, false, arith, leb}
use harry_performance_scrape.Prelude.Int.{pos, half64, quot64, sub64, wrap64, ◌-ℤ◌}
use harry_performance_scrape.Clock.{time_sub, time_sub_exact}
use harry_performance_scrape.Runtime.{missed_scheduled_intervals}

sub64_one : (n : ℕ) → n < half64 → leb n 1 ≡ false → sub64 (pos n) (pos 1) ≡ pos (n - 1)
unfolding sub64 wrap64 ◌-ℤ◌
sub64_one n h k = ground arith

div-le : (n i : ℕ) → n / i ≤ n
div-le n i = grind arith

small : (n i : ℕ) → n < half64 → n / i < half64
small n i h = omega (arith, div-le n i)

-- With the elapsed intervals as a number of its own.
after_periods :
    (previous current i n : ℕ)
    → 0 < previous
    → previous < current
    → 0 < i
    → n < half64
    → quot64 (time_sub current previous) (pos i) ≡ pos n
    → missed_scheduled_intervals previous current (pos i) ≡ pos (n - 1)
unfolding missed_scheduled_intervals
after_periods previous current i n p q r h e =
    rw (e, missed_scheduled_intervals) (ground (arith, sub64_one n))

-- After a first tick, and for a positive interval, the missed ticks are the whole intervals between
-- the two ticks less one.
pub missed_scheduled_intervals_lem :
    (previous current i : ℕ)
    → 0 < previous
    → previous < current
    → 0 < i
    → current - previous < half64
    → missed_scheduled_intervals previous current (pos i) ≡ pos ((current - previous) / i - 1)
unfolding quot64
missed_scheduled_intervals_lem previous current i p q r h =
    after_periods previous current i ((current - previous) / i) p q r (small _ i h)
      (rw (time_sub_exact current previous (omega arith) h))
