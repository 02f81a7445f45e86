-- ===== src/Config/Defaults.antt =====
-- What `merge` and `validate` of collector/config.go guarantee to the rest of the program.
use harry_performance_scrape.Prelude.{◌≡◌, true, none, arith, is_some, string_eq}
use harry_performance_scrape.Prelude.Int.{pos, ◌≤ℤ◌, ◌<ℤ◌}
use harry_performance_scrape.Texts.{text_eq}
use harry_performance_scrape.Config.Detection
use harry_performance_scrape.Config.Operational
use harry_performance_scrape.Config.Activity
use harry_performance_scrape.Config.Plans
use harry_performance_scrape.Config.Availability
use harry_performance_scrape.Config.Scope.{validate_high_availability_config_iff}
use harry_performance_scrape.Config.Output.{or_default}
use harry_performance_scrape.Config.Validate.{
  MetricsConfiguration, merge, validate, validate_high_availability_config, top_sql_limit,
  validate_operational_config, validate_performance_config,
  validate_dead_connection_detection_config,
}

-- What the getters that dereference a pointer without a test rely on.
pub record IsComplete (m : MetricsConfiguration) : Type 0 where
  pub listen_addresses : is_some m.web.listen_addresses ≡ true
  pub log_disable : is_some m.logging.log_disable ≡ true
  pub log_interval : is_some m.logging.log_interval ≡ true
  pub scrape_interval : is_some m.metrics.scrape_interval ≡ true

-- After `merge`, every setting that is later dereferenced without a test is there.
pub merge-IsComplete : (m : MetricsConfiguration) → IsComplete (merge m)
unfolding merge or_default
merge-IsComplete m = ground arith

-- The timings that the running program divides by or starts tickers with.
pub record HasPositiveTimings (m : MetricsConfiguration) : Type 0 where
  pub activity_interval : pos 0 <ℤ Activity.get_interval m.performance.activity
  pub activity_timeout : pos 0 <ℤ Activity.get_query_timeout m.performance.activity
  pub operational_interval :
      Operational.get_enabled m.operational ≡ true → pos 0 <ℤ Operational.get_interval m.operational
  pub operational_timeout :
      Operational.get_enabled m.operational ≡ true
      → pos 0 <ℤ Operational.get_query_timeout m.operational
  pub plans_interval :
      Plans.get_enabled m.performance.sql_plans ≡ true
      → pos 0 <ℤ Plans.get_interval m.performance.sql_plans
  pub plans_timeout :
      Plans.get_enabled m.performance.sql_plans ≡ true
      → pos 0 <ℤ Plans.get_query_timeout m.performance.sql_plans
  pub plans_top_n :
      Plans.get_enabled m.performance.sql_plans ≡ true
      → (pos 0 <ℤ Plans.get_top_n m.performance.sql_plans)
        × (Plans.get_top_n m.performance.sql_plans ≤ℤ top_sql_limit)
  pub detection_interval :
      Detection.get_enabled m.metrics.dead_connection_detection ≡ true
      → pos 0 <ℤ Detection.get_interval m.metrics.dead_connection_detection
  pub detection_timeout :
      Detection.get_enabled m.metrics.dead_connection_detection ≡ true
      → pos 0 <ℤ Detection.get_probe_timeout m.metrics.dead_connection_detection
  pub retry_interval :
      Availability.get_enabled m.high_availability ≡ true
      → pos 0 <ℤ Availability.get_retry_interval m.high_availability
  pub validation_interval :
      Availability.get_enabled m.high_availability ≡ true
      → pos 0 <ℤ Availability.get_validation_interval m.high_availability

-- Each section passes on its own.
sections_pass :
    (m : MetricsConfiguration)
    → validate m ≡ none
    → (validate_high_availability_config m.high_availability ≡ none)
      × (validate_operational_config m.operational ≡ none)
      × (validate_performance_config m.performance ≡ none)
      × (validate_dead_connection_detection_config m.metrics.dead_connection_detection ≡ none)
unfolding validate
sections_pass m h = ground arith

operational_pass :
    (c : Operational.OperationalConfig)
    → validate_operational_config c ≡ none
    → Operational.get_enabled c ≡ true
    → (pos 0 <ℤ Operational.get_interval c) × (pos 0 <ℤ Operational.get_query_timeout c)
unfolding validate_operational_config
operational_pass c h on = ground arith

activity_pass :
    (p : Plans.PerformanceConfig)
    → validate_performance_config p ≡ none
    → (pos 0 <ℤ Activity.get_interval p.activity) × (pos 0 <ℤ Activity.get_query_timeout p.activity)
unfolding validate_performance_config
activity_pass p h = ground arith

plans_pass :
    (p : Plans.PerformanceConfig)
    → validate_performance_config p ≡ none
    → Plans.get_enabled p.sql_plans ≡ true
    → (pos 0 <ℤ Plans.get_interval p.sql_plans)
      × (pos 0 <ℤ Plans.get_query_timeout p.sql_plans)
      × (pos 0 <ℤ Plans.get_top_n p.sql_plans)
      × (Plans.get_top_n p.sql_plans ≤ℤ top_sql_limit)
unfolding validate_performance_config
plans_pass p h on = ground arith

detection_pass :
    (c : Detection.DeadConnectionDetectionConfig)
    → validate_dead_connection_detection_config c ≡ none
    → Detection.get_enabled c ≡ true
    → (pos 0 <ℤ Detection.get_interval c) × (pos 0 <ℤ Detection.get_probe_timeout c)
unfolding validate_dead_connection_detection_config
detection_pass c h on = ground arith

-- In a configuration that passes `validate`, the interval and the timeout of the activity sampling are
-- positive; so are those of the operational sampling, the plan collection and the dead connection detection,
-- and the retry and the validation interval of high availability, each where its section is switched on;
-- and the plan collection, where it is switched on, takes 1 to 100 top statements.
pub validate-HasPositiveTimings :
    (m : MetricsConfiguration) → validate m ≡ none → HasPositiveTimings m
validate-HasPositiveTimings m h =
    let (availability, operational, performance, detection) = sections_pass m h in
    record {
      activity_interval = (activity_pass m.performance performance).0;
      activity_timeout = (activity_pass m.performance performance).1;
      operational_interval = λ on. (operational_pass m.operational operational on).0;
      operational_timeout = λ on. (operational_pass m.operational operational on).1;
      plans_interval = λ on. (plans_pass m.performance performance on).0;
      plans_timeout = λ on. (plans_pass m.performance performance on).1;
      plans_top_n = λ on. let pass = plans_pass m.performance performance on in (pass.2, pass.3);
      detection_interval = λ on. (detection_pass _ detection on).0;
      detection_timeout = λ on. (detection_pass _ detection on).1;
      retry_interval =
          λ on. ((validate_high_availability_config_iff m.high_availability on).0 availability).1;
      validation_interval =
          λ on. ((validate_high_availability_config_iff m.high_availability on).0 availability).2;
    }
