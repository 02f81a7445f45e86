-- ===== src/Collection/DataGuard.antt =====
-- scrapeDataGuard of collector/dataguard.go and the queries that it makes. Go's parsing of times and
-- its float64 are arguments.
use harry_performance_scrape.Prelude.{
  ℕ, zero, suc, ◌-◌, Bool, false, not, ◌||◌, Option, none, some, [], ◌∷◌, ◌++◌, map, String,
  if◌then◌else◌, ◌==◌, or_else, is_some,
}
use harry_performance_scrape.Prelude.Int.{ℤ, pos, int_eq}
use harry_performance_scrape.Clock.{Time, Duration, time_sub}
use harry_performance_scrape.Texts.{Text, text, text_eq, to_lower}
use harry_performance_scrape.Errors.{Error, wrap_error, join_errors}
use harry_performance_scrape.Database.{Database}
use harry_performance_scrape.Samples.Operational.{
  Float64, OperationalSamples, DataGuardLagSample, count,
}
use harry_performance_scrape.Collection.Rows.{
  DataGuardDestinationRow, DataGuardProcessRow, data_guard_destination_sample,
  data_guard_process_sample,
}
use harry_performance_scrape.Collection.Query.{QueryAnswer, query_operational_rows}
use harry_performance_scrape.Collection.Interval.{
  Floats, seconds, unknown, malformed, parse_data_guard_interval, equal_fold,
}

-- What Go's packages give: parseDataGuardTimestamp tries two layouts of time.ParseInLocation.
pub record Formats : Type 0 where
  pub floats : Floats
  pub parse_data_guard_timestamp : Text → Option Time
  pub seconds_of : Duration → Float64
  pub greater : Float64 → Float64 → Bool

pub record DiscoveryRow : Type 0 where
  pub role : String
  pub enabled : ℤ

pub record DataGuardLagRow : Type 0 where
  pub name : String
  pub value : Option String
  pub time_computed : Option String
  pub datum_time : Option String

-- The answers to the four queries.
pub record DataGuardAnswers : Type 0 where
  pub discovery : QueryAnswer DiscoveryRow
  pub destinations : QueryAnswer DataGuardDestinationRow
  pub lag : QueryAnswer DataGuardLagRow
  pub processes : QueryAnswer DataGuardProcessRow

-- The closure over `role` and `detected`.
abbrev pub discover : DiscoveryRow → String × Bool → (String × Bool) × Option Error
discover r found = ((r.role, r.enabled == pos 1), none)

-- The closures that append a sample for each row.
unfoldable pub append_destination :
    Database
    → Time
    → DataGuardDestinationRow
    → OperationalSamples
    → OperationalSamples × Option Error
unfolding data_guard_destination_sample
append_destination d collected r out = (
  record out {
    data_guard_destinations =
        out.data_guard_destinations ++ (data_guard_destination_sample collected d.name r ∷ []);
  },
  none,
)

unfoldable pub append_process :
    Database
    → Time
    → String
    → DataGuardProcessRow
    → OperationalSamples
    → OperationalSamples × Option Error
unfolding data_guard_process_sample
append_process d collected role r out = (
  record out {
    data_guard_processes =
        out.data_guard_processes ++ (data_guard_process_sample collected d.name role r ∷ []);
  },
  none,
)

unfoldable pub scrape_data_guard_destinations :
    QueryAnswer DataGuardDestinationRow
    → Database
    → Time
    → OperationalSamples
    → OperationalSamples × Option Error
unfolding query_operational_rows append_destination
scrape_data_guard_destinations q d collected out =
    query_operational_rows (append_destination d collected) q d out

unfoldable pub scrape_data_guard_processes :
    QueryAnswer DataGuardProcessRow
    → Database
    → Time
    → String
    → OperationalSamples
    → OperationalSamples × Option Error
unfolding query_operational_rows append_process
scrape_data_guard_processes q d collected role out =
    query_operational_rows (append_process d collected role) q d out

-- `value.String` of a NullString.
abbrev string_of : Option String → String
string_of o = or_else o ""

-- The switch on the name of the row.
unfoldable pub with_seconds : Text → Option Float64 → DataGuardLagSample → DataGuardLagSample
with_seconds name v s =
    if name == text "transport lag"
    then record s { transport_lag_seconds = v }
    else if name == text "apply lag"
    then record s { apply_lag_seconds = v }
    else if name == text "apply finish time"
    then record s { apply_finish_time_seconds = v }
    else if name == text "estimated startup time"
    then record s { estimated_startup_seconds = v }
    else s

abbrev with_times : DataGuardLagRow → DataGuardLagSample → DataGuardLagSample
with_times r s = record s {
  time_computed = elim r.time_computed [ none ↦ s.time_computed | some t ↦ some t ];
  datum_time = elim r.datum_time [ none ↦ s.datum_time | some t ↦ some t ];
}

abbrev pub empty_lag : Time → String → String → DataGuardLagSample
empty_lag collected database role = record {
  collected_at = collected;
  database = database;
  database_role = role;
  transport_lag_seconds = none;
  apply_lag_seconds = none;
  apply_finish_time_seconds = none;
  estimated_startup_seconds = none;
  time_computed = none;
  datum_time = none;
  datum_age_seconds = none;
}

-- The end of scrapeDataGuardLag: the one sample, where some row was seen and none was refused.
unfoldable pub append_lag :
    (DataGuardLagSample × ℕ) × Option Error → OperationalSamples → OperationalSamples × Option Error
append_lag (s, some e) out = (out, some e)
append_lag ((s, zero), none) out = (out, none)
append_lag ((s, suc n), none) out =
    (record out { data_guard_lag = out.data_guard_lag ++ (s ∷ []) }, none)

-- `if err != nil { joined = errors.Join(joined, fmt.Errorf("...: %w", err)) }`
abbrev pub join_part : Text → Option Error → Option Error → Option Error
join_part name joined none = joined
join_part name joined (some e) = join_errors joined (some (wrap_error name e))

module _ (f : Formats) where
  -- The greatest age of the data over the rows.
  unfoldable pub with_age : Option Time → Option Time → DataGuardLagSample → DataGuardLagSample
  with_age (some computed) (some datum) s =
      let age = f.seconds_of (time_sub computed datum) in
      record s {
        datum_age_seconds = elim s.datum_age_seconds [
          | none ↦ some age
          | some old ↦ if f.greater age old then some age else some old
        ];
      }
  with_age _ _ s = s

  -- The row, once its interval is known.
  unfoldable pub lag_row :
      Option Float64 → DataGuardLagRow → DataGuardLagSample × ℕ → DataGuardLagSample × ℕ
  unfolding with_seconds with_age
  lag_row v r (s, seen) = (
    with_age (f.parse_data_guard_timestamp (text (string_of r.time_computed)))
        (f.parse_data_guard_timestamp (text (string_of r.datum_time)))
        (with_times r (with_seconds (map to_lower (text r.name)) v s)),
    suc seen,
  )

  unfoldable pub visit_lag :
      DataGuardLagRow → DataGuardLagSample × ℕ → (DataGuardLagSample × ℕ) × Option Error
  unfolding lag_row parse_data_guard_interval
  visit_lag r s = elim (parse_data_guard_interval f.floats (text (string_of r.value))) [
    | seconds v ↦ (lag_row (some v) r s, none)
    | unknown ↦ (lag_row none r s, none)
    | malformed e ↦ (s, some e)
  ]

  unfoldable pub scrape_data_guard_lag :
      QueryAnswer DataGuardLagRow
      → Database
      → Time
      → String
      → OperationalSamples
      → OperationalSamples × Option Error
  unfolding query_operational_rows visit_lag append_lag
  scrape_data_guard_lag q d collected role out =
      append_lag (query_operational_rows visit_lag q d (empty_lag collected d.name role, 0)) out

  -- The part for a database that Data Guard has been found on.
  unfoldable pub scrape_detected :
      DataGuardAnswers
      → Database
      → Time
      → String
      → OperationalSamples
      → OperationalSamples × Option Error
  unfolding scrape_data_guard_destinations scrape_data_guard_lag scrape_data_guard_processes
  scrape_detected a d collected role out =
      let (o1, e1) = scrape_data_guard_destinations a.destinations d collected out in
      let joined1 = join_part (text "destinations: ") none e1 in
      let (o2, e2) =
        if not (equal_fold (text role) (text "PRIMARY"))
        then scrape_data_guard_lag a.lag d collected role o1
        else (o1, none) in
      let joined2 = join_part (text "lag: ") joined1 e2 in
      let (o3, e3) =
        if equal_fold (text role) (text "PHYSICAL STANDBY")
        then scrape_data_guard_processes a.processes d collected role o2
        else (o2, none) in
      (o3, join_part (text "processes: ") joined2 e3)

  unfoldable pub scrape_data_guard :
      DataGuardAnswers
      → Database
      → Time
      → OperationalSamples
      → OperationalSamples × ℕ × Option Error
  unfolding query_operational_rows scrape_detected
  scrape_data_guard a d collected out =
      let ((role, detected), err) = query_operational_rows discover a.discovery d ("", false) in
      if is_some err || not detected
      then (out, 0, err)
      else (let (o, joined) = scrape_detected a d collected role out in
          (o, count o - count out, joined))
