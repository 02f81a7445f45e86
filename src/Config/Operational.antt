-- ===== src/Config/Operational.antt =====
-- OperationalConfig of collector/config.go and its getters.
use harry_performance_scrape.Prelude.{◌*◌, Bool, true, Option, or_else, string_eq}
use harry_performance_scrape.Prelude.Int.{pos}
use harry_performance_scrape.Clock.{Duration, second, minute}
use harry_performance_scrape.Texts.{text_eq}

pub record OperationalConfig : Type 0 where
  pub enabled : Option Bool
  pub interval : Option Duration
  pub query_timeout : Option Duration

unfoldable pub get_enabled : OperationalConfig → Bool
get_enabled c = or_else c.enabled true

unfoldable pub get_interval : OperationalConfig → Duration
get_interval c = or_else c.interval (pos minute)

unfoldable pub get_query_timeout : OperationalConfig → Duration
get_query_timeout c = or_else c.query_timeout (pos (10 * second))
