-- ===== src/Metrics/Scraping.antt =====
-- ScrapeMetricSamples of collector/collector.go with what it calls: the additional metrics of one database.
-- The printed values of the columns and strconv.ParseFloat are arguments. A copy of a map is the map.
use harry_performance_scrape.Prelude.{
  ℕ, Bool, true, false, not, ◌||◌, Option, none, some, is_some, List, [], ◌∷◌, ◌++◌, map,
  if◌then◌else◌, or_else, ◌==◌, length, eqb,
}
use harry_performance_scrape.Prelude.Dict.{Dict, lookup, insert}
use harry_performance_scrape.Clock.{Time}
use harry_performance_scrape.Texts.{Text, text, text_eq, to_lower, trim_space}
use harry_performance_scrape.Errors.{Error, new_error}
use harry_performance_scrape.Errors.ZeroResult.{new_zero_result_error}
use harry_performance_scrape.Database.{Database}
use harry_performance_scrape.Samples.{MetricSample}
use harry_performance_scrape.Samples.Operational.{Float64}
use harry_performance_scrape.Profile.Query.{Fetch, Fetched, fetch}
use harry_performance_scrape.Metrics.{Metric, get_labels, lower_keys}

-- Scraper.constLabels: every label of a database, blank.
unfoldable pub blank_labels : List Text → Dict Text Text
blank_labels [] = []
blank_labels (l ∷ ls) = insert l [] (blank_labels ls)

unfoldable pub insert_all : Dict Text Text → Dict Text Text → Dict Text Text
insert_all [] labels = labels
insert_all (e ∷ m) labels = insert_all m (insert e.0 e.1 labels)

-- Database.constLabels
unfoldable pub const_labels : Text → Text → Dict Text Text → Dict Text Text → Dict Text Text
unfolding insert_all
const_labels database_label name configured labels =
    insert_all configured (insert database_label name labels)

unfoldable pub duplicated_labels : Dict Text Text → List Text → Bool
duplicated_labels constants [] = false
duplicated_labels constants (l ∷ ls) =
    is_some (lookup l constants) || duplicated_labels constants ls

abbrev pub Row : Type 0
Row = Dict Text Text

-- The bits of -1.
abbrev pub minus_one : Float64
minus_one = 0xbff0_0000_0000_0000

unfoldable pub parse_float : (Text → Option Float64) → Text → Row → Float64 × Bool
parse_float number metric r = elim (lookup metric r) [
  | none ↦ (0, false)
  | some value ↦
      if value == text "<nil>"
      then (0, true)
      else elim (number (trim_space value)) [ none ↦ (minus_one, false) | some x ↦ (x, true) ]
]

abbrev pub is_removed : ℕ → Bool
is_removed c = eqb c b'(' || eqb c b')' || eqb c b'/' || eqb c b'*'

unfoldable pub clean_name : Text → Text
clean_name [] = []
clean_name (c ∷ s) =
    let rest = clean_name s in
    if eqb c b' ' then b'_' ∷ rest else if is_removed c then rest else to_lower c ∷ rest

unfoldable pub metric_name_suffix : Row → Text → Text → Text
unfolding clean_name
metric_name_suffix r metric field =
    if field == [] then metric else clean_name (or_else (lookup field r) [])

-- `labels[label] = row[label]`
unfoldable pub row_labels : List Text → Row → Dict Text Text → Dict Text Text
row_labels [] r labels = labels
row_labels (l ∷ ls) r labels = row_labels ls r (insert l (or_else (lookup l r) []) labels)

abbrev pub type_or_gauge : Text → Text
type_or_gauge t = if t == [] then text "gauge" else t

module _ (number : Text → Option Float64) (d : Database) (m : Metric) (collected : Time) (r : Row)
    (labels : Dict Text Text) where
  -- One metric of a row.
  unfoldable pub metric_samples : Text × Text → List MetricSample
  unfolding parse_float metric_name_suffix
  metric_samples (metric, help) =
      let (value, ok) = parse_float number metric r in
      if not ok
      then []
      else record {
        collected_at = collected;
        database = d.name;
        context = m.context;
        name = metric_name_suffix r metric m.field_to_append;
        help = help;
        type = type_or_gauge (map to_lower (or_else (lookup metric m.metrics_type) []));
        value = value;
        labels = labels;
      }
        ∷ []

  unfoldable pub described_samples : Dict Text Text → List MetricSample
  unfolding metric_samples
  described_samples [] = []
  described_samples (e ∷ es) = metric_samples e ++ described_samples es

module _ (number : Text → Option Float64) (d : Database) (m : Metric) (collected : Time)
    (constants : Dict Text Text) where
  -- The closure `parse` on each row, whose keys are in lower case.
  unfoldable pub parse_rows : List Row → List MetricSample
  unfolding described_samples row_labels
  parse_rows [] = []
  parse_rows (r ∷ rs) =
      let r' = lower_keys r [] in
      described_samples number d m collected r' (row_labels (get_labels m) r' constants)
        m.metrics_desc
      ++ parse_rows rs

-- What ScrapeMetricSamples leaves; `next` is the next address, and `locks` the read locks on the database.
pub record Scraped : Type 0 where
  pub samples : List MetricSample
  pub err : Option Error
  pub next : ℕ
  pub locks : ℕ

abbrev pub refuses : Text → ℕ → ℕ → Scraped
refuses message next locks = record {
  samples = [];
  err = some (new_error message);
  next = next;
  locks = locks;
}

-- The end, by the rows and the error of scanRows.
unfoldable pub parsed : Bool → List MetricSample → Option Error → ℕ → ℕ → Scraped
unfolding new_zero_result_error
parsed ignored samples (some e) next locks = record {
  samples = [];
  err = some e;
  next = next;
  locks = locks;
}
parsed false [] none next locks =
    let (e, next') = new_zero_result_error next in
    record { samples = []; err = some e; next = next'; locks = locks }
parsed ignored samples none next locks = record {
  samples = samples;
  err = none;
  next = next;
  locks = locks;
}

unfoldable pub scrape_metric_samples :
    (Text → Option Float64)
    → Fetch Row
    → Database
    → Metric
    → Time
    → Dict Text Text
    → ℕ
    → ℕ
    → Scraped
unfolding fetch duplicated_labels parse_rows parsed
scrape_metric_samples number query d m collected constants next locks =
    if m.request == []
    then refuses (text "scrape request not found") next locks
    else if eqb (length m.metrics_desc) 0
    then refuses (text "metricsdesc not found") next locks
    else if duplicated_labels constants (get_labels m)
    then record { samples = []; err = none; next = next; locks = locks }
    else (let scanned : Fetched Row = fetch (λ r. r) query d locks in
        parsed m.ignore_zero_result (parse_rows number d m collected constants scanned.samples)
          scanned.err next scanned.locks)
