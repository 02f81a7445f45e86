-- ===== src/Gates.antt =====
-- When the slower collections run: shouldCollectOperational of collector/operational.go and
-- shouldCollectSQLDetails of collector/performance.go, each under its mutex. A nil configuration, as
-- in tests of the source, is not represented.
pub mod Spacing
use harry_performance_scrape.Prelude.{
  Bool, true, false, not, none, some, String, string_eq, if◌then◌else◌,
}
use harry_performance_scrape.Prelude.Dict.{Dict, lookup, insert}
use harry_performance_scrape.Clock.{Time, Duration, time_add, before}
use harry_performance_scrape.Config.Operational
use harry_performance_scrape.Config.Operational.{OperationalConfig}
use harry_performance_scrape.Config.Plans
use harry_performance_scrape.Config.Plans.{SqlPlanConfig}

-- `last, ok := e.last...[database]`, and whether the interval since then is over.
unfoldable pub is_due : Duration → Dict String Time → String → Time → Bool
is_due interval last database at = elim (lookup database last) [
  | none ↦ true
  | some t ↦ not (before at (time_add t interval))
]

unfoldable pub should_collect_operational :
    OperationalConfig → Dict String Time → String → Time → Dict String Time × Bool
unfolding is_due
should_collect_operational c last database at =
    if not (Operational.get_enabled c)
    then (last, false)
    else if is_due (Operational.get_interval c) last database at
    then (insert database at last, true)
    else (last, false)

unfoldable pub should_collect_sql_details :
    SqlPlanConfig → Dict String Time → String → Time → Dict String Time × Bool
unfolding is_due
should_collect_sql_details c last database at =
    if not (Plans.get_enabled c)
    then (last, false)
    else if is_due (Plans.get_interval c) last database at
    then (insert database at last, true)
    else (last, false)
