-- ===== src/Scenarios/Scheduling.antt =====
-- Runs of the collection of performance samples, and of a scheduled scrape.
use harry_performance_scrape.Prelude.{
  ◌<◌, ◌≡◌, refl, true, false, none, some, List, [], ◌∷◌, string_eq,
}
use harry_performance_scrape.Prelude.Int.{pos, int_eq}
use harry_performance_scrape.Clock.{minute}
use harry_performance_scrape.Texts.{text}
use harry_performance_scrape.Database.{rows, query_context}
use harry_performance_scrape.Samples.Performance.{SqlPlanKey}
use harry_performance_scrape.Config.Plans.{SqlPlanConfig}
use harry_performance_scrape.Profile.{PerformanceAnswers, Profiler, scrape_performance_samples}
use harry_performance_scrape.Profile.Query.{Fetch}
use harry_performance_scrape.Profile.Locks.{
  plans_late, locks-scrape_performance_samples, locks-scrape_performance_samples_late,
}
use harry_performance_scrape.Metrics.{Metric}
use harry_performance_scrape.Scheduled.{
  Surroundings, Settings, Scraper, scraped, scrape_database_samples,
}
use harry_performance_scrape.Scheduled.Reports.{Reports, scrape_database_samples-Reports}
use harry_performance_scrape.Prelude.{length, ◌+◌}
use harry_performance_scrape.Scheduled.Capacity.{SendsAtMost, scrape_database_samples-SendsAtMost}
use harry_performance_scrape.Scenarios.Connections.{orcl}
use harry_performance_scrape.Scenarios.Collecting.{operational, formats}

abbrev nothing : {A : Type 0} → Fetch A
nothing = record { answer = rows (record { scanned = []; err = none }); deadline = false }

-- Rows that arrive when the deadline is over.
abbrev too_late : {A : Type 0} → Fetch A
too_late = record { answer = rows (record { scanned = []; err = none }); deadline = true }

abbrev performance : PerformanceAnswers
performance = record {
  sql = nothing;
  sessions = nothing;
  blocking = nothing;
  details = λ ids. nothing;
  plans = λ ks. nothing;
}

abbrev plans : SqlPlanConfig
plans = record { enabled = none; interval = none; top_n = none; query_timeout = none }

abbrev profiler : Profiler
profiler = record {
  consumers = record { snapshots = []; deltas = [] };
  last_sql_detail_collection = [];
  known_plans = [];
  locks = 0;
}

no_plans_late : (asked : List SqlPlanKey) → plans_late performance orcl 50 asked ≡ false
no_plans_late [] = refl
no_plans_late (k ∷ ks) = refl

locks-scrape_performance_samples_example :
    (scrape_performance_samples performance plans orcl 50 profiler).profiler.locks ≡ 0
locks-scrape_performance_samples_example =
    locks-scrape_performance_samples performance plans orcl 50 profiler refl refl refl no_plans_late

locks-scrape_performance_samples_late_example :
    0
    < (scrape_performance_samples
        (record performance { sessions = too_late })
        plans
        orcl
        50
        profiler).profiler.locks
unfolding query_context
locks-scrape_performance_samples_late_example =
    locks-scrape_performance_samples_late (record performance { sessions = too_late }) plans orcl 50
      profiler refl

abbrev metric : Metric
metric = record {
  id = text "sessions_value";
  context = text "sessions";
  labels = [];
  metrics_desc = (text "value", text "Sessions") ∷ [];
  metrics_type = [];
  metrics_buckets = [];
  field_to_append = [];
  request = text "select count(*) as value from v$session";
  ignore_zero_result = false;
  query_timeout = [];
  scrape_interval = [];
  databases = none;
}

abbrev surroundings : Surroundings
surroundings = record {
  ping_answer = none;
  outcomes = λ m. scraped [];
  performance = performance;
  operational = operational;
  formats = formats;
  parse_duration = λ s. some (pos minute);
  elapsed = λ collector. pos 7;
  at = 55;
}

abbrev settings : Settings
settings = record {
  plans = plans;
  operational = record { enabled = none; interval = some (pos minute); query_timeout = none };
}

abbrev scraper : Scraper
scraper = record {
  database = orcl;
  metrics_cache = (text "sessions_value", none) ∷ [];
  profiler = profiler;
  last_operational_scrape = [];
  operational_counters = [];
}

scrape_database_samples-Reports_example :
    Reports true (scrape_database_samples surroundings 50 settings (metric ∷ []) (some 50) scraper)
scrape_database_samples-Reports_example =
    scrape_database_samples-Reports surroundings 50 settings (metric ∷ []) (some 50) scraper

scrape_database_samples-SendsAtMost_example :
    SendsAtMost
      (length (metric ∷ []) + 2)
      1
      1
      (scrape_database_samples surroundings 50 settings (metric ∷ []) (some 50) scraper)
scrape_database_samples-SendsAtMost_example =
    scrape_database_samples-SendsAtMost surroundings 50 settings (metric ∷ []) (some 50) scraper
