-- ===== src/Config/Activity.antt =====
-- ActivityConfig of collector/config.go and its getters.
use harry_performance_scrape.Prelude.{◌*◌, Option, [], map, if◌then◌else◌, or_else, ◌==◌, string_eq}
use harry_performance_scrape.Prelude.Int.{pos}
use harry_performance_scrape.Clock.{Duration, second}
use harry_performance_scrape.Texts.{Text, text, text_eq, trim_space, to_lower}

pub record ActivityConfig : Type 0 where
  pub source : Text
  pub interval : Option Duration
  pub query_timeout : Option Duration

unfoldable pub get_source : ActivityConfig → Text
get_source c = if trim_space c.source == [] then text "session" else map to_lower c.source

unfoldable pub get_interval : ActivityConfig → Duration
get_interval c = or_else c.interval (pos (2 * second))

unfoldable pub get_query_timeout : ActivityConfig → Duration
get_query_timeout c = or_else c.query_timeout (pos (2 * second))
