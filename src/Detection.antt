-- ===== src/Detection.antt =====
-- RunDeadConnectionDetection of collector/dead_connection_detection.go: one serial pass over the
-- databases, the only place that rebuilds a connection. The hook `reconnectDatabase` of the tests is nil.
pub mod Recovery
pub mod Pass
pub mod States
pub mod Report
use harry_performance_scrape.Prelude.{
  ℕ, suc, ◌+◌, Bool, true, false, Option, none, some, String, List, [], ◌∷◌, ◌++◌, map,
  if◌then◌else◌, length, is_some, not,
}
use harry_performance_scrape.Prelude.Int.{ℤ, pos, negsuc, quot64, ltb_ℤ}
use harry_performance_scrape.Clock.{Time, Duration, time_sub, zero_time}
use harry_performance_scrape.Errors.{Error}
use harry_performance_scrape.Connection.{
  begin_probe, finish_probe, ConnectionStateSample, connection_state_sample,
}
use harry_performance_scrape.Database.{Database, Reconnected, reconnect}
use harry_performance_scrape.Database.Pool.{Attempt}
use harry_performance_scrape.Config.Detection.{
  DeadConnectionDetectionConfig, get_interval, get_probe_timeout,
}
use harry_performance_scrape.Samples.{RuntimeSample, SampleBatch, ScrapeSummary}
use harry_performance_scrape.Samples.Operational
use harry_performance_scrape.Samples.Performance
use harry_performance_scrape.Runtime.{Instance}
use harry_performance_scrape.Status.{ScrapeStatusSample, new_scrape_status}

-- What the surroundings do during one database's turn: whether the context is cancelled before it,
-- the two readings of the clock, and the driver.
pub record Turn : Type 0 where
  pub cancelled : Bool
  pub started : Time
  pub finished : Time
  pub attempt : Attempt

-- finishProbe on what recoverDatabase left.
unfoldable pub finished : Turn → Reconnected → Database
finished turn r = record r.database {
  connection = finish_probe turn.finished turn.started r.error r.database.connection;
}

-- One probe: beginProbe, recoverDatabase, finishProbe. `none` when the database is not quarantined.
unfoldable pub probe : Turn → Database → Database × Option (Option Error)
unfolding finished
probe turn d =
    let (begun, may) = begin_probe turn.started d.connection in
    let r : Reconnected = reconnect turn.attempt (record d { connection = begun }) in
    if not may then (d, none) else (finished turn r, some r.error)

-- The loop's variables.
pub record Tally : Type 0 where
  pub statuses : List ScrapeStatusSample
  pub attempted : ℕ
  pub recovered : ℕ
  pub errors_count : ℕ

abbrev pub counted : Time → Time → Time → Database → Option (Option Error) → Tally → Tally
counted scheduled started now d none t = t
counted scheduled started now d (some e) t = record {
  statuses =
      t.statuses
      ++ (new_scrape_status scheduled d.name "dead_connection_detection" (time_sub now started) 0 e
          ∷ []);
  attempted = t.attempted + 1;
  recovered = if is_some e then t.recovered else t.recovered + 1;
  errors_count = if is_some e then t.errors_count + 1 else t.errors_count;
}

-- The loop: the databases with their turns. A cancelled context stops it at once, and the probes made
-- so far keep their effect; the Boolean says whether the pass ran to its end.
unfoldable pub pass : Time → List (Database × Turn) → Tally → List Database × Tally × Bool
unfolding probe
pass scheduled [] t = ([], t, true)
pass scheduled ((d, turn) ∷ rest) t =
    let (d', outcome) = probe turn d in
    let (ds, t', complete) =
      pass scheduled rest (counted scheduled turn.started turn.finished d outcome t) in
    if turn.cancelled then (d ∷ map (λ p. p.0) rest, t, false) else (d' ∷ ds, t', complete)

unfoldable pub non_negative_duration : Duration → Duration
non_negative_duration v = if ltb_ℤ v (pos 0) then pos 0 else v

-- connectionStateSamples of collector/collector.go.
unfoldable pub connection_state_samples : Time → String → List Database → List ConnectionStateSample
connection_state_samples observed instance_name [] = []
connection_state_samples observed instance_name (d ∷ ds) =
    connection_state_sample d.name observed instance_name d.connection
    ∷ connection_state_samples observed instance_name ds

abbrev pub no_tally : Tally
no_tally = record { statuses = []; attempted = 0; recovered = 0; errors_count = 0 }

-- The clock around a pass: the timer's tick, and the readings at its start and end.
pub record Clocked : Type 0 where
  pub scheduled_at : Time
  pub started_at : Time
  pub finished_at : Time

unfoldable pub detection_runtime :
    Instance → DeadConnectionDetectionConfig → Clocked → Tally → RuntimeSample
detection_runtime e c at t = record {
  observed_at = zero_time;
  scheduler = "dead_connection_detection";
  trigger = "ticker";
  scraper_instance = e.instance_name;
  ha_scope = e.scope;
  scheduled_at = at.scheduled_at;
  started_at = at.started_at;
  collection_finished_at = at.finished_at;
  finished_at = zero_time;
  configured_interval = get_interval c;
  configured_query_timeout = some (get_probe_timeout c);
  scheduling_lag = non_negative_duration (time_sub at.started_at at.scheduled_at);
  collection_duration = time_sub at.finished_at at.started_at;
  postgresql_write_duration = pos 0;
  total_duration = pos 0;
  missed_intervals = quot64 (time_sub at.finished_at at.started_at) (get_interval c);
  databases_attempted = t.attempted;
  databases_succeeded = t.recovered;
  sample_count = length t.statuses;
  error_count = t.errors_count;
  postgresql_write_success = false;
  postgresql_error_message = none;
}

unfoldable pub detection_batch :
    Instance
    → DeadConnectionDetectionConfig
    → Clocked
    → List Database
    → Tally
    → SampleBatch × ScrapeSummary
unfolding detection_runtime
detection_batch e c at ds t = (
  record {
    additional_metrics = [];
    performance = Performance.empty;
    operational = Operational.empty;
    scrape_statuses = t.statuses;
    connection_states = connection_state_samples at.finished_at e.instance_name ds;
    connection_states_complete = true;
    runtime = some (detection_runtime e c at t);
  },
  record {
    started_at = at.started_at;
    finished_at = at.finished_at;
    duration = time_sub at.finished_at at.started_at;
    total_errors = t.errors_count;
    sample_count = length t.statuses;
  },
)

-- runDeadConnectionDetection: the databases after it, and what it hands to the sink. A cancelled pass
-- hands over nothing.
unfoldable pub run_dead_connection_detection :
    Instance
    → DeadConnectionDetectionConfig
    → Clocked
    → List (Database × Turn)
    → List Database × Option (SampleBatch × ScrapeSummary)
unfolding detection_batch
run_dead_connection_detection e c at ps =
    let (ds, t, complete) = pass at.scheduled_at ps no_tally in
    if complete then (ds, some (detection_batch e c at ds t)) else (ds, none)
