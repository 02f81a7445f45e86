-- ===== src/Scenarios/Storage.antt =====
-- Runs of the telemetry buffer, the gates and the counters.
use harry_performance_scrape.Prelude.{
  ◌*◌, ◌≡◌, refl, false, none, some, List, [], ◌∷◌, ◌++◌, String, string_eq, arith,
}
use harry_performance_scrape.Prelude.Int.{pos}
use harry_performance_scrape.Prelude.Dict.{lookup}
use harry_performance_scrape.Clock.{Time, second, minute}
use harry_performance_scrape.Texts.{text}
use harry_performance_scrape.Errors.{Error}
use harry_performance_scrape.Samples.{RuntimeSample}
use harry_performance_scrape.Sink.Queue.{Telemetry}
use harry_performance_scrape.Sink.Delivery.{Transaction, Readings}
use harry_performance_scrape.Sink.Ledger.{IsBounded, log, Delivery}
use harry_performance_scrape.Sink.History.{
  deliveries, reports, log-deliveries, deliveries-IsBounded,
}
use harry_performance_scrape.Config.Operational
use harry_performance_scrape.Config.Operational.{OperationalConfig}
use harry_performance_scrape.Config.Plans.{SqlPlanConfig}
use harry_performance_scrape.Gates.{should_collect_operational}
use harry_performance_scrape.Gates.Spacing.{accepted, SpacedFrom, should_collect_operational_spaced}
use harry_performance_scrape.Counters.{OperationalCounterKey, counter_key_eq, Counters}
use harry_performance_scrape.Counters.Rises.{Reading, reported, rises, reported-rises}

abbrev sample_1 : RuntimeSample
sample_1 = record {
  observed_at = 0;
  scheduler = "performance";
  trigger = "ticker";
  scraper_instance = "host:1";
  ha_scope = text "default";
  scheduled_at = 5 * second;
  started_at = 5 * second;
  collection_finished_at = 6 * second;
  finished_at = 0;
  configured_interval = pos (10 * second);
  configured_query_timeout = none;
  scheduling_lag = pos 0;
  collection_duration = pos second;
  postgresql_write_duration = pos 0;
  total_duration = pos 0;
  missed_intervals = pos 0;
  databases_attempted = 1;
  databases_succeeded = 1;
  sample_count = 4;
  error_count = 0;
  postgresql_write_success = false;
  postgresql_error_message = none;
}

abbrev buffer : Telemetry
buffer = record {
  pending = sample_1 ∷ [];
  last_flush_attempt = 0;
  flush_interval = pos 0;
  stored = [];
}

abbrev gone : Error
gone = record { message = text "connection refused"; causes = [] }

abbrev fine : Transaction
fine = record { begin_err = none; partitions = none; writes = none; runtime = none; commit = none }

abbrev refusing : Transaction
refusing = record fine { begin_err = some gone }

abbrev now : Readings
now = record { started = 7 * second; taken = 7 * second; finished = 8 * second }

abbrev writes : List Delivery
writes =
    record { sample = some sample_1; at = now; tx = refusing }
    ∷ record { sample = some sample_1; at = now; tx = fine }
    ∷ []

log-deliveries_example : log (deliveries writes buffer) ≡ log buffer ++ reports writes buffer
log-deliveries_example = log-deliveries writes buffer (omega arith)

deliveries-IsBounded_example : IsBounded (deliveries writes buffer)
deliveries-IsBounded_example = deliveries-IsBounded writes buffer (omega arith)

-- The error says that the transaction could not begin.
abbrev refused : Error
refused = record { message = text "begin postgresql transaction: connection refused"; causes = [] }

abbrev operational : OperationalConfig
operational = record { enabled = none; interval = some (pos minute); query_timeout = none }

abbrev plans : SqlPlanConfig
plans = record { enabled = none; interval = none; top_n = none; query_timeout = none }

abbrev calls : List (String × Time)
calls = ("orcl", 0) ∷ ("orcl", second) ∷ ("other", 2 * second) ∷ ("orcl", 2 * minute) ∷ []

should_collect_operational_spaced_example :
    SpacedFrom
      (Operational.get_interval operational)
      none
      (accepted (should_collect_operational operational) "orcl" [] calls)
should_collect_operational_spaced_example =
    should_collect_operational_spaced operational "orcl" calls

abbrev parses : OperationalCounterKey
parses = record {
  database = "orcl";
  kind = "system";
  inst_id = pos 1;
  con_id = pos 0;
  name = "parse count";
}

abbrev commits : OperationalCounterKey
commits = record parses { name = "user commits" }

abbrev since : Counters
since = (parses, record { collected_at = 10; value = pos 100 }) ∷ []

-- A rise by 20, a fall, and a rise by 5.
abbrev readings : List Reading
readings =
    record { key = parses; at = 20; value = 120 }
    ∷ record { key = commits; at = 20; value = 7 }
    ∷ record { key = parses; at = 30; value = 3 }
    ∷ record { key = parses; at = 40; value = 8 }
    ∷ []

reported-rises_example : reported parses since readings ≡ rises parses 100 readings
reported-rises_example = reported-rises parses readings since 10 100 (unfold lookup in refl) refl
