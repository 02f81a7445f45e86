-- ===== src/Scenarios/Connections.antt =====
-- Runs of the connection state, the databases, the detection pass and the alert-log backoff.
use harry_performance_scrape.Prelude.{
  or_else, ℕ, suc, zero, ◌≤◌, ◌<◌, ◌≡◌, ◌≢◌, ◌⊎◌, refl, inl, inr, true, false, Option, none, some,
  List, [], ◌∷◌, arith, string_eq, All,
}
use harry_performance_scrape.Prelude.Int.{pos}
use harry_performance_scrape.Texts.{text, to_upper, contains, text_eq}
use harry_performance_scrape.Errors.{Error, join_errors, net_error, deadline_exceeded}
use harry_performance_scrape.Failure.{any_marker, markers, is_connection_failure}
use harry_performance_scrape.Failure.Wrapping.{join_errors-timeout_hides}
use harry_performance_scrape.Connection.{active, quarantined, Status, initial}
use harry_performance_scrape.Connection.Lifecycle.{
  Event, fail, begin, finish, start, step, run, is_waiting, IsQueuedRight, run-IsQueuedRight,
  run-queued_at,
}
use harry_performance_scrape.Config.Connect.{ConnectConfig}
use harry_performance_scrape.Config.Detection.{DeadConnectionDetectionConfig}
use harry_performance_scrape.Database.{Database}
use harry_performance_scrape.Database.Pool.{Attempt, pool_size, warmup_session}
use harry_performance_scrape.Database.Availability.{IsSettled, InService, OutOfService}
use harry_performance_scrape.Database.Leak.{FailsAt, warmup_session-held}
use harry_performance_scrape.Detection.{
  Turn, Clocked, no_tally, probe, pass, run_dead_connection_detection, detection_runtime,
}
use harry_performance_scrape.Detection.Recovery.{probe-IsSettled}
use harry_performance_scrape.Detection.Pass.{pass-IsSettled}
use harry_performance_scrape.Detection.Report.{Reports, run_dead_connection_detection_report}
use harry_performance_scrape.Samples.{SampleBatch, ScrapeSummary, RuntimeSample}
use harry_performance_scrape.Samples.Performance
use harry_performance_scrape.Samples.Operational
use harry_performance_scrape.Connection.{begin_probe}
use harry_performance_scrape.Runtime.{Instance}

abbrev lost : Error
lost = record { message = text "ORA-03113: end-of-file"; causes = [] }

abbrev refused : Error
refused = record { message = text "dial tcp: timeout"; causes = net_error ∷ [] }

-- Startup, a failure, a probe that fails and one that succeeds.
abbrev life : List Event
life =
    start 5
    ∷ fail 10 (some lost)
    ∷ begin 20
    ∷ fail 22 (some refused)
    ∷ begin 30
    ∷ finish 35 30 none
    ∷ []

life_ends_active : (run initial life).state ≡ active
unfolding run step initial
life_ends_active = refl

run-IsQueuedRight_example : IsQueuedRight (run initial life)
run-IsQueuedRight_example = run-IsQueuedRight life

abbrev down : Status
down = record {
  state = quarantined;
  queued_at = some 10;
  last_failure_at = some 10;
  last_failure = text "ORA-03113";
  last_probe_at = none;
  last_probe_duration = none;
  last_probe_error = [];
  probe_attempts = pos 0;
  recovered_at = none;
}

abbrev outage : List Event
outage = begin 20 ∷ finish 25 20 (some lost) ∷ fail 30 (some refused) ∷ begin 40 ∷ []

run-queued_at_example :
    (is_waiting (run down outage).state ≡ true) × ((run down outage).queued_at ≡ some 10)
run-queued_at_example = run-queued_at outage down 10 refl refl refl

join_errors-timeout_hides_example :
    (is_connection_failure (some (record { message = text "eof"; causes = net_error ∷ [] })) ≡ true)
    × (is_connection_failure (
          join_errors
            (some (record { message = text "eof"; causes = net_error ∷ [] }))
            (some (record { message = text "late"; causes = deadline_exceeded ∷ [] })))
        ≡ false)
join_errors-timeout_hides_example =
    join_errors-timeout_hides (text "eof") (text "late")
      (unfold any_marker contains markers to_upper in refl)

abbrev config : ConnectConfig
config = record {
  role = "";
  tns_admin = "";
  external_auth = false;
  conn_max_lifetime = none;
  conn_max_idle_time = none;
  max_open_conns = some (pos 3);
  max_idle_conns = none;
  pool_increment = none;
  pool_max_connections = none;
  pool_min_connections = none;
  query_timeout = none;
}

abbrev healthy : Attempt
healthy = record { session = some 7; connect_err = none; ping = none; acquire = λ n. none }

-- The third connection cannot be had.
abbrev third_fails : ℕ → Option Error
third_fails (suc (suc (suc zero))) = some lost
third_fails _ = none

abbrev exhausted : Attempt
exhausted = record healthy { acquire = third_fails }

exhausted_FailsAt : FailsAt exhausted.acquire 2 lost
exhausted_FailsAt = record { earlier = early; here = refl }
  where
    early : (k : ℕ) → 0 < k → k ≤ 2 → exhausted.acquire k ≡ none
    early zero p q = absurd (omega arith)
    early (suc zero) p q = refl
    early (suc (suc zero)) p q = refl
    early (suc (suc (suc k))) p q = absurd (omega arith)

warmup_session-held_example :
    warmup_session exhausted config ≡ record { error = some lost; held = 2 }
warmup_session-held_example =
    warmup_session-held exhausted config 2 lost refl exhausted_FailsAt
      (unfold pool_size in omega arith)

abbrev pub orcl : Database
orcl = record {
  name = "orcl";
  up = 1;
  session = some 4;
  config = config;
  connect_err = none;
  startup_ready = true;
  activity_error = [];
  connection = record down { state = active; queued_at = none };
}

abbrev orcl_down : Database
orcl_down = record orcl { up = 0; activity_error = text "ORA-03113"; connection = down }

pub orcl-InService : InService orcl
orcl-InService = record {
  ready = refl;
  up = refl;
  state = refl;
  not_queued = refl;
  connected = refl;
}

text_says : text "ORA-03113" ≢ []
text_says = ground arith

orcl_down-OutOfService : OutOfService orcl_down
orcl_down-OutOfService = record {
  ready = refl;
  down = refl;
  state = refl;
  queued = refl;
  suspended = text_says;
}

lost_says : lost.message ≢ []
lost_says = ground arith

abbrev turn : Turn
turn = record { cancelled = false; started = 60; finished = 65; attempt = healthy }

probe-IsSettled_example :
    (((probe turn orcl_down).1 ≡ some none) × InService (probe turn orcl_down).0)
    ⊎ ((e : Error) × ((probe turn orcl_down).1 ≡ some (some e))
        × OutOfService (probe turn orcl_down).0)
probe-IsSettled_example = probe-IsSettled turn orcl_down (tt, tt, λ k. tt) orcl_down-OutOfService

abbrev both : List (Database × Turn)
both = (orcl_down, turn) ∷ (orcl, turn) ∷ []

pass-IsSettled_example : All IsSettled (pass 55 both no_tally).0
pass-IsSettled_example =
    pass-IsSettled 55 both no_tally (
      ((tt, tt, λ k. tt), inr orcl_down-OutOfService),
      (((tt, tt, λ k. tt), inl orcl-InService), tt),
    )

abbrev detection : DeadConnectionDetectionConfig
detection = record { enabled = none; interval = none; probe_timeout = none }

abbrev instance_1 : Instance
instance_1 = record { instance_name = "host:1"; scope = text "default"; databases = 2 }

abbrev clocked : Clocked
clocked = record { scheduled_at = 55; started_at = 56; finished_at = 70 }

-- The batch of the pass over the two databases.
abbrev handed : Option (SampleBatch × ScrapeSummary)
handed = (run_dead_connection_detection instance_1 detection clocked both).1

abbrev no_batch : SampleBatch
no_batch = record {
  additional_metrics = [];
  performance = Performance.empty;
  operational = Operational.empty;
  scrape_statuses = [];
  connection_states = [];
  connection_states_complete = true;
  runtime = none;
}

abbrev no_summary : ScrapeSummary
no_summary = record {
  started_at = 0;
  finished_at = 0;
  duration = pos 0;
  total_errors = 0;
  sample_count = 0;
}

abbrev delivered : SampleBatch × ScrapeSummary
delivered = or_else handed (no_batch, no_summary)

abbrev no_runtime : RuntimeSample
no_runtime = detection_runtime instance_1 detection clocked no_tally

run_dead_connection_detection_report_example :
    Reports both
      (run_dead_connection_detection instance_1 detection clocked both).0
      delivered.0
      (or_else delivered.0.runtime no_runtime)
run_dead_connection_detection_report_example =
    run_dead_connection_detection_report instance_1 detection clocked both delivered.0 delivered.1
      (or_else delivered.0.runtime no_runtime)
      (unfold run_dead_connection_detection pass probe begin_probe in refl)
      (unfold run_dead_connection_detection pass probe begin_probe in refl)
