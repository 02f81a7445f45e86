-- ===== src/Runtime/Counts.antt =====
-- What a runtime sample of collector/runtime.go adds up to.
use harry_performance_scrape.Prelude.{◌+◌, ◌≤◌, arith, string_eq}
use harry_performance_scrape.Prelude.Int.{pos, ◌≤ℤ◌}
use harry_performance_scrape.Runtime.{Instance, Cycle, new_runtime_sample}

-- Every database is accounted for: those that did not succeed are covered by the errors. The errors
-- and the missed intervals are never below what the caller counted, and the lag is not negative.
new_runtime_sample_accounts :
    (e : Instance) (c : Cycle)
    → let r = new_runtime_sample e c in
      (r.databases_attempted ≤ r.databases_succeeded + r.error_count)
      × (c.error_count ≤ r.error_count)
      × (c.missed ≤ℤ r.missed_intervals)
      × (pos 0 ≤ℤ r.scheduling_lag)
unfolding new_runtime_sample
new_runtime_sample_accounts e c = ground arith
