-- ===== src/Metrics.antt =====
-- Metric of collector/types.go, the functions on it of collector/metrics.go, and the cache of the times
-- of the last scrapes (collector/cache.go). time.ParseDuration is an argument.
pub mod Scraping
pub mod Labels
use harry_performance_scrape.Prelude.{
  Bool, true, false, not, ◌||◌, Option, none, some, List, [], ◌∷◌, ◌++◌, map, String, string_eq,
  ◌==◌, if◌then◌else◌, or_else, keep,
}
use harry_performance_scrape.Prelude.Int.{pos, leb_ℤ, ltb_ℤ}
use harry_performance_scrape.Prelude.Dict.{Dict, lookup, insert, keys}
use harry_performance_scrape.Prelude.Sorting.{sorted}
use harry_performance_scrape.Clock.{Time, Duration, time_sub}
use harry_performance_scrape.Texts.{Text, text_eq, to_lower}
use harry_performance_scrape.Consumers.{compare_text}

-- `databases` is `none` where the source's slice is nil.
pub record Metric : Type 0 where
  pub id : Text
  pub context : Text
  pub labels : List Text
  pub metrics_desc : Dict Text Text
  pub metrics_type : Dict Text Text
  pub metrics_buckets : Dict Text (Dict Text Text)
  pub field_to_append : Text
  pub request : Text
  pub ignore_zero_result : Bool
  pub query_timeout : Text
  pub scrape_interval : Text
  pub databases : Option (List String)

abbrev pub contains_name : String → List String → Bool
contains_name d [] = false
contains_name d (n ∷ ns) = n == d || contains_name d ns

unfoldable pub is_enabled_for_database : Metric → String → Bool
is_enabled_for_database m d = elim m.databases [ none ↦ true | some names ↦ contains_name d names ]

-- The times of the last scrapes of one database's metrics. Every metric is in the source's map, since
-- initCache runs whenever the metrics are loaded.
abbrev pub MetricsCache : Type 0
MetricsCache = Dict Text (Option Time)

unfoldable pub new_metrics_cache : List Metric → MetricsCache
new_metrics_cache [] = []
new_metrics_cache (m ∷ ms) = insert m.id none (new_metrics_cache ms)

unfoldable pub set_last_scraped : Metric → Option Time → MetricsCache → MetricsCache
set_last_scraped m tick c = insert m.id tick c

unfoldable pub get_last_scraped : Metric → MetricsCache → Option Time
get_last_scraped m c = or_else (lookup m.id c) none

-- time.ParseDuration, and `none` for its error.
abbrev pub ParseDuration : Type 0
ParseDuration = Text → Option Duration

unfoldable pub get_scrape_interval : ParseDuration → Text → Option Duration
get_scrape_interval parse_duration [] = none
get_scrape_interval parse_duration (b ∷ s) = parse_duration (b ∷ s)

-- `lastScraped == nil || interval < tick.Sub(*lastScraped)`
unfoldable pub is_over : Duration → Time → Option Time → Bool
is_over interval tick none = true
is_over interval tick (some last) = ltb_ℤ interval (time_sub tick last)

unfoldable pub is_scrape_metric :
    ParseDuration → Option Time → Metric → String → MetricsCache → Bool
unfolding is_enabled_for_database get_scrape_interval get_last_scraped is_over
is_scrape_metric parse_duration tick m d c =
    if not (is_enabled_for_database m d) then false else elim tick [
      | none ↦ true
      | some t ↦ elim (get_scrape_interval parse_duration m.scrape_interval) [
        | none ↦ true
        | some interval ↦ is_over interval t (get_last_scraped m c)
      ]
    ]

unfoldable pub get_labels : Metric → List Text
get_labels m =
    if m.field_to_append == [] then m.labels else keep (λ l. not (l == m.field_to_append)) m.labels

abbrev pub underscored : List Text → Text
underscored [] = []
underscored (k ∷ ks) = b'_' ∷ (k ++ underscored ks)

-- The context and the sorted names.
unfoldable pub create_metric_id : Metric → Text
create_metric_id m =
    m.context
    ++ underscored (sorted (λ a b. leb_ℤ (compare_text a b) (pos 0)) (keys m.metrics_desc))

-- The loops that build the normalised maps. Where two names differ in case only, the later one of the
-- map's order wins, which Go leaves open.
unfoldable pub lower_keys {ℓ} : {V : Type ℓ} → Dict Text V → Dict Text V → Dict Text V
lower_keys [] done = done
lower_keys (e ∷ m) done = lower_keys m (insert (map to_lower e.0) e.1 done)

abbrev pub lower_fields : Dict Text (Dict Text Text) → Dict Text (Dict Text Text)
lower_fields m = map (λ e. (e.0, lower_keys e.1 [])) m

abbrev pub with_id : Metric → Metric
with_id m = record m { id = create_metric_id m }

unfoldable pub normalize_identifiers : Metric → Metric
unfolding lower_keys create_metric_id
normalize_identifiers m = with_id (record m {
  metrics_desc = lower_keys m.metrics_desc [];
  metrics_type = lower_keys m.metrics_type [];
  metrics_buckets = lower_keys (lower_fields m.metrics_buckets) [];
  labels = map (map to_lower) m.labels;
  field_to_append = map to_lower m.field_to_append;
})

-- Metrics.toMap, mergeMetrics and the scraper's merge: a later metric with the same ID wins.
unfoldable pub merge_metrics : Dict Text Metric → List Metric → Dict Text Metric
merge_metrics dst [] = dst
merge_metrics dst (m ∷ ms) = merge_metrics (insert m.id m dst) ms

unfoldable pub to_map : List Metric → Dict Text Metric
unfolding merge_metrics
to_map ms = merge_metrics [] ms
