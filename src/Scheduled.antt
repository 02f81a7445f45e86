-- ===== src/Scheduled.antt =====
-- scrapeDatabaseSamples of collector/collector.go: one scheduled scrape of one database. What it sends to
-- the channels is collected in lists. The driver's answers, the readings of the clock and the outcome of
-- each query for additional metrics are arguments. Other goroutines, such as activity sampling, may
-- change the database in between, which is left out here.
pub mod Balance
pub mod Reports
pub mod Capacity
use harry_performance_scrape.Prelude.{
  ℕ, ◌+◌, Bool, true, false, not, ◌||◌, Option, none, some, List, [], ◌∷◌, ◌++◌, String,
  if◌then◌else◌, is_some, length, eqb, or_else,
}
use harry_performance_scrape.Prelude.Dict.{Dict}
use harry_performance_scrape.Clock.{Time, Duration}
use harry_performance_scrape.Texts.{Text, text, text_eq}
use harry_performance_scrape.Errors.{Error, new_error, join_errors}
use harry_performance_scrape.Status.{ScrapeStatusSample, new_scrape_status}
use harry_performance_scrape.Connection.{state_text, is_active}
use harry_performance_scrape.Database.{Database, ping, quarantine_connection_failure}
use harry_performance_scrape.Config.Operational.{OperationalConfig}
use harry_performance_scrape.Config.Plans.{SqlPlanConfig}
use harry_performance_scrape.Counters.{Counters}
use harry_performance_scrape.Gates.{should_collect_operational}
use harry_performance_scrape.Metrics.{
  Metric, MetricsCache, ParseDuration, is_scrape_metric, set_last_scraped,
}
use harry_performance_scrape.Samples.{MetricSample}
use harry_performance_scrape.Samples.Operational
use harry_performance_scrape.Samples.Operational.{OperationalSamples}
use harry_performance_scrape.Samples.Performance
use harry_performance_scrape.Samples.Performance.{PerformanceSamples}
use harry_performance_scrape.Collection.{OperationalAnswers, scrape_operational_samples, Progress}
use harry_performance_scrape.Collection.DataGuard.{Formats}
use harry_performance_scrape.Profile.{
  PerformanceAnswers, Profiler, Profiled, scrape_performance_samples,
}

-- What ScrapeMetricSamples returns.
pub data Outcome : Type 0 where
  scraped : List MetricSample → Outcome
  scrape_failed : Error → Outcome

-- The surroundings of one scrape. `elapsed` is the time since a collector's start, `at` the clock when
-- an operation on the connection state reads it.
pub record Surroundings : Type 0 where
  pub ping_answer : Option Error
  pub outcomes : Metric → Outcome
  pub performance : PerformanceAnswers
  pub operational : OperationalAnswers
  pub formats : Formats
  pub parse_duration : ParseDuration
  pub elapsed : String → Duration
  pub at : Time

pub record Settings : Type 0 where
  pub plans : SqlPlanConfig
  pub operational : OperationalConfig

-- What the scraper keeps for the database.
pub record Scraper : Type 0 where
  pub database : Database
  pub metrics_cache : MetricsCache
  pub profiler : Profiler
  pub last_operational_scrape : Dict String Time
  pub operational_counters : Counters

-- What has been sent to the five channels, with the variables of the function.
pub record Sent : Type 0 where
  pub scraper : Scraper
  pub statuses : List ScrapeStatusSample
  pub errs : List (Option Error)
  pub metrics : List MetricSample
  pub performance : List PerformanceSamples
  pub operational : List OperationalSamples
  pub total_count : ℕ
  pub database_errors : Option Error

abbrev pub nothing_sent : Scraper → Sent
nothing_sent s = record {
  scraper = s;
  statuses = [];
  errs = [];
  metrics = [];
  performance = [];
  operational = [];
  total_count = 0;
  database_errors = none;
}

abbrev pub set_database : Database → Sent → Sent
set_database d r = record r { scraper = record (r.scraper) { database = d } }

module _ (env : Surroundings) (collected : Time) (name : String) where
  abbrev pub status : String → ℕ → Option Error → ScrapeStatusSample
  status collector n err = new_scrape_status collected name collector (env.elapsed collector) n err

  -- sendFailureStatuses
  abbrev pub failure_statuses : Error → List ScrapeStatusSample
  failure_statuses e = status "connectivity" 0 (some e) ∷ status "scheduled" 0 (some e) ∷ []

  -- The last status.
  unfoldable pub finish : Sent → Sent
  unfolding new_scrape_status
  finish r = record r {
    statuses = r.statuses ++ (status "scheduled" r.total_count r.database_errors ∷ []);
  }

  -- One metric that is due; the Boolean is whether the connection is lost, which ends the loop.
  unfoldable pub take_outcome : Metric → Option Time → Outcome → Sent → Sent × Bool
  take_outcome m tick (scraped samples) r = (
    record r {
      errs = r.errs ++ (none ∷ []);
      metrics = r.metrics ++ samples;
      total_count = r.total_count + length samples;
      scraper = record (r.scraper) {
        metrics_cache = set_last_scraped m tick r.scraper.metrics_cache;
      };
    },
    false,
  )
  take_outcome m tick (scrape_failed e) r =
      let (d, lost) = quarantine_connection_failure (some e) env.at r.scraper.database in
      (
        set_database d (record r {
          errs = r.errs ++ (some e ∷ []);
          database_errors = join_errors r.database_errors (some e);
        }),
        lost,
      )

  abbrev pub unless_lost : Sent × Bool → Sent → Sent
  unless_lost (r, true) later = r
  unless_lost (r, false) later = later

  -- The loop over the metrics, in some order of the map.
  unfoldable pub scrape_metrics : Option Time → List Metric → Sent → Sent
  unfolding take_outcome
  scrape_metrics tick [] r = r
  scrape_metrics tick (m ∷ ms) r =
      let skipped = scrape_metrics tick ms (record r { errs = r.errs ++ (none ∷ []) }) in
      let taken = take_outcome m tick (env.outcomes m) r in
      let later = scrape_metrics tick ms taken.0 in
      if not (is_scrape_metric env.parse_duration tick m name r.scraper.metrics_cache)
      then skipped
      else unless_lost taken later

  -- `if len(e.metricsToScrape) > 0`
  abbrev pub additional_status : List Metric → Sent → Sent
  additional_status [] r = r
  additional_status (m ∷ ms) r = record r {
    statuses = r.statuses ++ (status "additional_metrics" r.total_count r.database_errors ∷ []);
  }

  -- A batch is sent where it has samples.
  abbrev pub sent_if_any : {A : Type 0} → (A → ℕ) → A → List A → List A
  sent_if_any count a sent = if eqb (count a) 0 then sent else sent ++ (a ∷ [])

  -- ScrapePerformanceSamples, and what is sent of it. The deferred join keeps earlier errors first.
  unfoldable pub send_performance : Profiled → Sent → Sent
  unfolding new_scrape_status
  send_performance p r =
      let (d, lost) = quarantine_connection_failure p.err env.at r.scraper.database in
      record r {
        scraper = record (r.scraper) {
          profiler = p.profiler;
          database = if is_some p.err then d else r.scraper.database;
        };
        errs = r.errs ++ (p.err ∷ []);
        performance = sent_if_any Performance.count p.samples r.performance;
        statuses = r.statuses ++ (status "performance" (Performance.count p.samples) p.err ∷ []);
        total_count = r.total_count + Performance.count p.samples;
        database_errors = join_errors r.database_errors p.err;
      }

  -- ScrapeOperationalSamples, and what is sent of it.
  unfoldable pub send_operational : Progress → Sent → Sent
  send_operational p r =
      let (d, lost) = quarantine_connection_failure p.joined env.at r.scraper.database in
      let samples = p.gathered.0 in
      record r {
        scraper = record (r.scraper) { database = d; operational_counters = p.gathered.1 };
        errs = r.errs ++ (p.joined ∷ []);
        operational = sent_if_any Operational.count samples r.operational;
        statuses = r.statuses ++ p.statuses;
        total_count = r.total_count + Operational.count samples;
        database_errors = join_errors r.database_errors p.joined;
      }

  -- Where the interval for operational samples is over.
  unfoldable pub operational_if_due : Settings → Sent → Sent
  unfolding send_operational
  operational_if_due c r =
      let (last, due) =
        should_collect_operational c.operational r.scraper.last_operational_scrape name collected in
      let r' = record r { scraper = record (r.scraper) { last_operational_scrape = last } } in
      if due
      then send_operational
          (scrape_operational_samples env.formats env.operational env.elapsed
            (env.elapsed "operational") r'.scraper.database collected
            r'.scraper.operational_counters)
          r'
      else r'

  abbrev pub if_active : (Sent → Sent) → Sent → Sent
  if_active rest r = if is_active r.scraper.database.connection.state then rest r else r

  -- The performance samples, and the operational ones where the database is still active then.
  unfoldable pub collect_batches : Settings → Sent → Sent
  unfolding send_performance operational_if_due
  collect_batches c r = if_active (operational_if_due c) (
      send_performance
        (scrape_performance_samples env.performance c.plans r.scraper.database collected
          r.scraper.profiler)
        r)

  -- From the successful ping on.
  unfoldable pub scrape_reachable : Settings → List Metric → Option Time → Sent → Sent
  unfolding scrape_metrics collect_batches
  scrape_reachable c metrics tick r = if_active (collect_batches c) (
      additional_status metrics (
        scrape_metrics tick metrics
          (record r { statuses = r.statuses ++ (status "connectivity" 1 none ∷ []) })))

  -- The result of the ping.
  unfoldable pub after_ping : Settings → List Metric → Option Time → Option Error → Sent → Sent
  unfolding finish scrape_reachable
  after_ping c metrics tick (some e) r = record r {
    statuses = r.statuses ++ failure_statuses e;
    errs = r.errs ++ (some e ∷ []);
  }
  after_ping c metrics tick none r = finish (scrape_reachable c metrics tick r)

abbrev pub not_ready : Error
not_ready = new_error (text "database connection startup is still in progress")

abbrev pub not_active : Database → Error
not_active d = new_error (
    text "database "
    ++ text d.name
    ++ text " is "
    ++ state_text d.connection.state
    ++ text " and will not be scraped")

-- `now` is the time where no tick is given.
unfoldable pub scrape_database_samples :
    Surroundings → Time → Settings → List Metric → Option Time → Scraper → Sent
unfolding after_ping
scrape_database_samples env now c metrics tick s =
    let collected = or_else tick now in
    let d = s.database in
    let (d', err) = ping env.ping_answer env.at d in
    if not d.startup_ready
    then record (nothing_sent s) {
      statuses = failure_statuses env collected d.name not_ready;
      errs = none ∷ [];
    }
    else if not (is_active d.connection.state)
    then record (nothing_sent s) {
      statuses = failure_statuses env collected d.name (not_active d);
      errs = some (not_active d) ∷ [];
    }
    else after_ping env collected d.name c metrics tick err
        (nothing_sent (record s { database = d' }))
