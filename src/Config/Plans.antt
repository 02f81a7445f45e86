-- ===== src/Config/Plans.antt =====
-- SQLPlanConfig and PerformanceConfig of collector/config.go, with their getters.
use harry_performance_scrape.Prelude.{◌*◌, Bool, true, Option, or_else, string_eq}
use harry_performance_scrape.Prelude.Int.{ℤ, pos}
use harry_performance_scrape.Clock.{Duration, second, minute}
use harry_performance_scrape.Texts.{text_eq}
use harry_performance_scrape.Config.Activity.{ActivityConfig}

pub record SqlPlanConfig : Type 0 where
  pub enabled : Option Bool
  pub interval : Option Duration
  pub top_n : Option ℤ
  pub query_timeout : Option Duration

pub record PerformanceConfig : Type 0 where
  pub activity : ActivityConfig
  pub sql_plans : SqlPlanConfig

unfoldable pub get_enabled : SqlPlanConfig → Bool
get_enabled c = or_else c.enabled true

unfoldable pub get_interval : SqlPlanConfig → Duration
get_interval c = or_else c.interval (pos (2 * minute))

unfoldable pub get_top_n : SqlPlanConfig → ℤ
get_top_n c = or_else c.top_n (pos 20)

unfoldable pub get_query_timeout : SqlPlanConfig → Duration
get_query_timeout c = or_else c.query_timeout (pos (10 * second))
