-- ===== src/Samples.antt =====
-- The batch that a scheduler hands to the sink (collector/samples.go). Seconds stand as durations.
pub mod Operational
pub mod Performance
use harry_performance_scrape.Prelude.{
  ℕ, ◌+◌, ◌≡◌, refl, Bool, Option, none, some, String, List, [], ◌∷◌, ◌++◌, arith, length,
  length-append,
}
use harry_performance_scrape.Prelude.Int.{ℤ}
use harry_performance_scrape.Prelude.Dict.{Dict}
use harry_performance_scrape.Clock.{Time, Duration}
use harry_performance_scrape.Connection.{ConnectionStateSample}
use harry_performance_scrape.Status.{ScrapeStatusSample}
use harry_performance_scrape.Texts.{Text}
use Operational.{Float64, OperationalSamples}
use Performance.{PerformanceSamples}

pub record MetricSample : Type 0 where
  pub collected_at : Time
  pub database : String
  pub context : Text
  pub name : Text
  pub help : Text
  pub type : Text
  pub value : Float64
  pub labels : Dict Text Text

pub record ScrapeSummary : Type 0 where
  pub started_at : Time
  pub finished_at : Time
  pub duration : Duration
  pub total_errors : ℕ
  pub sample_count : ℕ

pub record RuntimeSample : Type 0 where
  pub observed_at : Time
  pub scheduler : String
  pub trigger : String
  pub scraper_instance : String
  pub ha_scope : Text
  pub scheduled_at : Time
  pub started_at : Time
  pub collection_finished_at : Time
  pub finished_at : Time
  pub configured_interval : Duration
  pub configured_query_timeout : Option Duration
  pub scheduling_lag : Duration
  pub collection_duration : Duration
  pub postgresql_write_duration : Duration
  pub total_duration : Duration
  pub missed_intervals : ℤ
  pub databases_attempted : ℕ
  pub databases_succeeded : ℕ
  pub sample_count : ℕ
  pub error_count : ℕ
  pub postgresql_write_success : Bool
  pub postgresql_error_message : Option Text

pub record SampleBatch : Type 0 where
  pub additional_metrics : List MetricSample
  pub performance : PerformanceSamples
  pub operational : OperationalSamples
  pub scrape_statuses : List ScrapeStatusSample
  pub connection_states : List ConnectionStateSample
  pub connection_states_complete : Bool
  pub runtime : Option RuntimeSample

-- SampleBatch.Count
unfoldable pub count : SampleBatch → ℕ
count b =
    length b.additional_metrics
    + Performance.count b.performance
    + Operational.count b.operational
    + length b.scrape_statuses
    + length b.connection_states
