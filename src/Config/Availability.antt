-- ===== src/Config/Availability.antt =====
-- HighAvailabilityConfig of collector/config.go and its getters.
use harry_performance_scrape.Prelude.{
  ◌*◌, Bool, true, Option, [], if◌then◌else◌, or_else, ◌==◌, string_eq,
}
use harry_performance_scrape.Prelude.Int.{pos}
use harry_performance_scrape.Clock.{Duration, second}
use harry_performance_scrape.Texts.{Text, text, text_eq}

pub record HighAvailabilityConfig : Type 0 where
  pub enabled : Option Bool
  pub scope : Text
  pub retry_interval : Option Duration
  pub validation_interval : Option Duration

unfoldable pub get_enabled : HighAvailabilityConfig → Bool
get_enabled c = or_else c.enabled true

unfoldable pub get_scope : HighAvailabilityConfig → Text
get_scope c = if c.scope == [] then text "default" else c.scope

unfoldable pub get_retry_interval : HighAvailabilityConfig → Duration
get_retry_interval c = or_else c.retry_interval (pos (5 * second))

unfoldable pub get_validation_interval : HighAvailabilityConfig → Duration
get_validation_interval c = or_else c.validation_interval (pos (2 * second))
