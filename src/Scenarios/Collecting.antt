-- ===== src/Scenarios/Collecting.antt =====
-- Runs of the collection of operational samples.
use harry_performance_scrape.Prelude.{
  arith, ◌+◌, ◌*◌, ◌≡◌, refl, not, none, some, List, [], ◌∷◌, ◌++◌, map, is_some, leb, string_eq,
}
use harry_performance_scrape.Prelude.Int.{pos, int_eq}
use harry_performance_scrape.Texts.{text}
use harry_performance_scrape.Errors.{Error}
use harry_performance_scrape.Status.{ScrapeStatusSample}
use harry_performance_scrape.Database.{rows, failed}
use harry_performance_scrape.Samples.Operational.{TablespaceSample, count}
use harry_performance_scrape.Collection.{OperationalAnswers, Progress, scrape_operational_samples}
use harry_performance_scrape.Collection.Rows.{TablespaceRow}
use harry_performance_scrape.Collection.Query.{QueryAnswer, row, refused}
use harry_performance_scrape.Collection.Merges.{
  TablespaceAllocationRow, apply_database_identity, apply_instance_memory,
  apply_tablespace_allocation,
}
use harry_performance_scrape.Collection.Applied.{
  Completes, IsIdentified, HasMemory, HasAllocation, applied-Completes,
}
use harry_performance_scrape.Collection.Interval.{Floats, seconds, parse_trimmed}
use harry_performance_scrape.Collection.Printed.{Clock, IsClock, minus, interval_text}
use harry_performance_scrape.Collection.Values.{
  IsExact, number_from, number_of, whole_minutes, seconds_text, signed, parse_trimmed-interval_text,
}
use harry_performance_scrape.Collection.DataGuard.{Formats}
use harry_performance_scrape.Collection.Reports.{
  operational_names, all_succeed, cut_message, scrape_operational_samples_reports,
}
use harry_performance_scrape.Collection.Counted.{appended, appended-scrape_operational_samples}
use harry_performance_scrape.Scenarios.Connections.{orcl}

abbrev users : TablespaceSample
users = record {
  collected_at = 5;
  database = "orcl";
  tablespace = "USERS";
  contents = "PERMANENT";
  used_bytes = pos 3;
  free_bytes = pos 1;
  max_bytes = pos 9;
  used_percent = 0;
  allocated_bytes = none;
}

abbrev tablespaces : List TablespaceSample
tablespaces = users ∷ record users { tablespace = "UNDO" } ∷ []

-- The first row for USERS is followed by a later one.
abbrev allocations : List TablespaceAllocationRow
allocations =
    record { tablespace = "USERS"; allocated_bytes = some (pos 4) }
    ∷ record { tablespace = "USERS"; allocated_bytes = some (pos 6) }
    ∷ []

applied-Completes_example :
    Completes (λ r. r.inst_id) (λ s. s.inst_id) IsIdentified [] [] (apply_database_identity [] [])
    × Completes (λ r. r.inst_id) (λ s. s.inst_id) HasMemory [] [] (apply_instance_memory [] [])
    × Completes
        (λ r. r.tablespace)
        (λ s. s.tablespace)
        HasAllocation
        allocations
        tablespaces
        (apply_tablespace_allocation tablespaces allocations)
applied-Completes_example = applied-Completes [] [] [] [] tablespaces allocations

-- Numbers in place of float64.
abbrev floats : Floats
floats = record {
  parse_float = λ s. (number_of s, none);
  mul = λ x y. x * y;
  add = λ x y. x + y;
  negate = λ x. x;
  of_nat = λ n. n;
  quoted = λ s. s;
}

abbrev pub formats : Formats
formats = record {
  floats = floats;
  parse_data_guard_timestamp = λ s. none;
  seconds_of = λ d. 0;
  greater = λ x y. not (leb x y);
}

-- -01 02:03:04.5
abbrev clock : Clock
clock = record {
  first_day = b'0';
  more_days = text "1";
  hour_tens = b'0';
  hour_ones = b'2';
  minute_tens = b'0';
  minute_ones = b'3';
  second_tens = b'0';
  second_ones = b'4';
  fraction_text = text ".5";
}

clock-IsClock : IsClock clock
clock-IsClock = record {
  days = (refl, (refl, tt));
  hours = (refl, (refl, tt));
  minutes = (refl, (refl, tt));
  whole_seconds = (refl, (refl, tt));
  fraction_part = (refl, (refl, tt));
}

floats-IsExact : IsExact floats
floats-IsExact = record { reads = λ c s h k. refl; products = λ a b h. refl; sums = λ a b h. refl }

parse_trimmed-interval_text_example :
    parse_trimmed floats (interval_text minus clock)
    ≡ seconds (signed floats minus (whole_minutes clock + number_of (seconds_text clock)))
parse_trimmed-interval_text_example =
    parse_trimmed-interval_text floats minus clock floats-IsExact clock-IsClock
      (unfold number_from in omega arith)

abbrev denied : Error
denied = record { message = text "ORA-00942"; causes = [] }

abbrev no_rows : {A : Type 0} → QueryAnswer A
no_rows = record { answer = rows (record { scanned = []; err = none }); ctx_err = none }

abbrev no_view : {A : Type 0} → QueryAnswer A
no_view = record { answer = failed denied; ctx_err = none }

-- A tablespace is scanned before a row that cannot be; another query has no view.
abbrev some_tablespaces : QueryAnswer TablespaceRow
some_tablespaces = record {
  answer = rows (record {
    scanned =
        row (record {
          tablespace = "USERS";
          contents = "PERMANENT";
          used_bytes = pos 3;
          free_bytes = pos 1;
          max_bytes = pos 9;
          used_percent = 0;
        })
        ∷ refused denied
        ∷ [];
    err = none;
  });
  ctx_err = none;
}

abbrev pub operational : OperationalAnswers
operational = record {
  status = no_rows;
  identity = no_rows;
  instances = no_rows;
  memory = no_rows;
  limits = no_view;
  tablespaces = some_tablespaces;
  allocation = no_rows;
  diskgroups = no_rows;
  system = no_rows;
  cpu_io = no_rows;
  waits = no_rows;
  metrics = no_rows;
  data_guard = record {
    discovery = no_view;
    destinations = no_rows;
    lag = no_rows;
    processes = no_rows;
  };
}

abbrev taken : Progress
taken = scrape_operational_samples formats operational (λ name. pos 2) (pos 30) orcl 50 []

scrape_operational_samples_reports_example :
    (parts : List ScrapeStatusSample) × (whole : ScrapeStatusSample) × (taken.statuses
      ≡ parts ++ whole ∷ [])
    × (map (λ s. s.collector) parts ≡ operational_names)
    × (whole.success ≡ all_succeed parts)
    × (whole.success ≡ not (is_some taken.joined))
    × (whole.error_message ≡ cut_message taken.joined)
    × (whole.sample_count ≡ count taken.gathered.0)
scrape_operational_samples_reports_example =
    scrape_operational_samples_reports formats operational (λ name. pos 2) (pos 30) orcl 50 []

appended-scrape_operational_samples_example :
    (parts : List ScrapeStatusSample) × (whole : ScrapeStatusSample) × (taken.statuses
      ≡ parts ++ whole ∷ [])
    × (whole.sample_count ≡ count taken.gathered.0)
    × (count taken.gathered.0 ≡ appended parts)
appended-scrape_operational_samples_example =
    appended-scrape_operational_samples formats operational (λ name. pos 2) (pos 30) orcl 50 []
