-- ===== src/Config/Detection.antt =====
-- DeadConnectionDetectionConfig and MetricsConfig of collector/config.go, with their getters.
use harry_performance_scrape.Prelude.{
  ◌*◌, Bool, true, Option, List, String, if◌then◌else◌, or_else, ◌==◌, string_eq,
}
use harry_performance_scrape.Prelude.Int.{pos}
use harry_performance_scrape.Clock.{Duration, second, minute}
use harry_performance_scrape.Texts.{Text, text_eq}

pub record DeadConnectionDetectionConfig : Type 0 where
  pub enabled : Option Bool
  pub interval : Option Duration
  pub probe_timeout : Option Duration

pub record MetricsConfig : Type 0 where
  pub database_label : String
  pub definitions : List Text
  pub scrape_interval : Option Duration
  pub dead_connection_detection : DeadConnectionDetectionConfig

unfoldable pub get_enabled : DeadConnectionDetectionConfig → Bool
get_enabled c = or_else c.enabled true

unfoldable pub get_interval : DeadConnectionDetectionConfig → Duration
get_interval c = or_else c.interval (pos (5 * minute))

unfoldable pub get_probe_timeout : DeadConnectionDetectionConfig → Duration
get_probe_timeout c = or_else c.probe_timeout (pos (5 * second))

-- DatabaseLabel
unfoldable pub database_label : MetricsConfig → String
database_label m = if m.database_label == "" then "database" else m.database_label
