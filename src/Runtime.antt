-- ===== src/Runtime.antt =====
-- collector/runtime.go: the scheduling telemetry of one cycle.
pub mod Intervals
pub mod Counts
use harry_performance_scrape.Prelude.{
  ℕ, zero, suc, ◌+◌, ◌-◌, Bool, true, false, ◌&&◌, ◌||◌, not, Option, none, some, String, List, [],
  ◌∷◌, if◌then◌else◌, ltb, length, ◌==◌, string_eq,
}
use harry_performance_scrape.Prelude.Int.{ℤ, pos, ltb_ℤ, leb_ℤ, quot64, sub64}
use harry_performance_scrape.Clock.{Time, Duration, time_sub, is_zero, after, zero_time}
use harry_performance_scrape.Texts.{Text}
use harry_performance_scrape.Status.{ScrapeStatusSample}
use harry_performance_scrape.Samples.{RuntimeSample}

unfoldable pub missed_scheduled_intervals : Time → Time → Duration → ℤ
missed_scheduled_intervals previous current interval =
    if is_zero previous || leb_ℤ interval (pos 0) || not (after current previous)
    then pos 0
    else let periods : ℤ = quot64 (time_sub current previous) interval in
      if leb_ℤ periods (pos 1) then pos 0 else sub64 periods (pos 1)

-- What newRuntimeSample reads of the scraper.
pub record Instance : Type 0 where
  pub instance_name : String
  pub scope : Text
  pub databases : ℕ

-- The other arguments of newRuntimeSample.
pub record Cycle : Type 0 where
  pub scheduler : String
  pub trigger : String
  pub scheduled_at : Time
  pub started_at : Time
  pub collection_finished_at : Time
  pub interval : Duration
  pub query_timeout : Option Duration
  pub missed : ℤ
  pub statuses : List ScrapeStatusSample
  pub completion_collector : String
  pub sample_count : ℕ
  pub error_count : ℕ

unfoldable pub scheduling_lag : Cycle → Duration
scheduling_lag c =
    let lag : Duration = time_sub c.started_at c.scheduled_at in
    if ltb_ℤ lag (pos 0) then pos 0 else lag

unfoldable pub missed_intervals : Cycle → ℤ
unfolding scheduling_lag
missed_intervals c =
    if ltb_ℤ (pos 0) c.interval
    then (let delayed : ℤ = quot64 (scheduling_lag c) c.interval in
        if ltb_ℤ c.missed delayed then delayed else c.missed)
    else c.missed

-- The loop over the statuses.
unfoldable pub succeeded : String → List ScrapeStatusSample → ℕ
succeeded completion [] = 0
succeeded completion (s ∷ ss) =
    let rest = succeeded completion ss in
    if s.collector == completion && s.success then suc rest else rest

-- `len(e.databases) - succeeded`, if that is above the errors counted. A negative difference is not.
unfoldable pub error_count : Instance → Cycle → ℕ
unfolding succeeded
error_count e c =
    let unsuccessful = e.databases - succeeded c.completion_collector c.statuses in
    if ltb c.error_count unsuccessful then unsuccessful else c.error_count

unfoldable pub new_runtime_sample : Instance → Cycle → RuntimeSample
unfolding missed_intervals error_count
new_runtime_sample e c = record {
  observed_at = zero_time;
  scheduler = c.scheduler;
  trigger = c.trigger;
  scraper_instance = e.instance_name;
  ha_scope = e.scope;
  scheduled_at = c.scheduled_at;
  started_at = c.started_at;
  collection_finished_at = c.collection_finished_at;
  finished_at = zero_time;
  configured_interval = c.interval;
  configured_query_timeout = c.query_timeout;
  scheduling_lag = scheduling_lag c;
  collection_duration = time_sub c.collection_finished_at c.started_at;
  postgresql_write_duration = pos 0;
  total_duration = pos 0;
  missed_intervals = missed_intervals c;
  databases_attempted = e.databases;
  databases_succeeded = succeeded c.completion_collector c.statuses;
  sample_count = c.sample_count;
  error_count = error_count e c;
  postgresql_write_success = false;
  postgresql_error_message = none;
}
