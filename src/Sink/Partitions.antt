-- ===== src/Sink/Partitions.antt =====
-- The daily partitions that postgresql/postgresql.go makes before it writes: ensureWritePartitions,
-- ensureDailyPartitions and ensureRepositoryIngestPartitions. PostgreSQL's answer to each statement is an
-- argument, and so are the quoted names of the tables.
use harry_performance_scrape.Prelude.{
  ℕ, Bool, false, ◌&&◌, ◌||◌, Option, none, some, List, [], ◌∷◌, ◌++◌, map, if◌then◌else◌, eqb,
}
use harry_performance_scrape.Clock.{Time, is_zero}
use harry_performance_scrape.Texts.{Text, text}
use harry_performance_scrape.Errors.{Error}
use harry_performance_scrape.Sink.Delivery.{wrapped}
use harry_performance_scrape.Samples.{SampleBatch, RuntimeSample}
use harry_performance_scrape.Sink.Retention.{day_start_utc}

-- The partitioned tables of the sink.
pub data Table : Type 0 where
  samples sql_samples session_samples blocking_sessions database_activity database_status instances
        resource_limits tablespaces asm_diskgroups system_counters wait_classes system_metrics
        data_guard_destinations data_guard_lag data_guard_processes scrape_statuses runtime_samples
        repository_ingest :
      Table

abbrev table_code : Table → ℕ
table_code samples = 0
table_code sql_samples = 1
table_code session_samples = 2
table_code blocking_sessions = 3
table_code database_activity = 4
table_code database_status = 5
table_code instances = 6
table_code resource_limits = 7
table_code tablespaces = 8
table_code asm_diskgroups = 9
table_code system_counters = 10
table_code wait_classes = 11
table_code system_metrics = 12
table_code data_guard_destinations = 13
table_code data_guard_lag = 14
table_code data_guard_processes = 15
table_code scrape_statuses = 16
table_code runtime_samples = 17
table_code repository_ingest = 18

-- The partitions that there are: a table and the start of a day.
abbrev pub Partitions : Type 0
Partitions = List (Table × Time)

unfoldable pub has_partition : Table → Time → Partitions → Bool
has_partition table day [] = false
has_partition table day (p ∷ ps) =
    (eqb (table_code p.0) (table_code table) && eqb p.1 day) || has_partition table day ps

-- `days`, a set.
unfoldable pub has_day : Time → List Time → Bool
has_day d [] = false
has_day d (e ∷ ds) = eqb e d || has_day d ds

abbrev pub add_day : Time → List Time → List Time
add_day d ds = if has_day d ds then ds else d ∷ ds

unfoldable pub days_of : List Time → List Time → List Time
days_of [] ds = ds
days_of (t ∷ ts) ds = days_of ts (if is_zero t then ds else add_day (day_start_utc t) ds)

-- An error ends the work, and leaves what has been made.
abbrev pub unless_refused :
    Option Error → Partitions → Partitions × Option Error → Partitions × Option Error
unless_refused none ps later = later
unless_refused (some e) ps later = (ps, some e)

-- The times of each table's rows.
unfoldable pub write_times :
    (Table → Text) → SampleBatch → List RuntimeSample → List (Text × Table × List Time)
write_times quoted b runtime =
    (text "metric sample", samples, map (λ s. s.collected_at) b.additional_metrics)
    ∷ (text "sql sample", sql_samples, map (λ s. s.collected_at) b.performance.sql)
    ∷ (text "session sample", session_samples, map (λ s. s.collected_at) b.performance.sessions)
    ∷ (
      text "blocking session sample",
      blocking_sessions,
      map (λ s. s.collected_at) b.performance.blocking_sessions,
    )
    ∷ (
      text "database activity sample",
      database_activity,
      map (λ s. s.sample_time) b.performance.database_activity,
    )
    ∷ (
      quoted database_status,
      database_status,
      map (λ s. s.collected_at) b.operational.database_status,
    )
    ∷ (quoted instances, instances, map (λ s. s.collected_at) b.operational.instances)
    ∷ (
      quoted resource_limits,
      resource_limits,
      map (λ s. s.collected_at) b.operational.resource_limits,
    )
    ∷ (quoted tablespaces, tablespaces, map (λ s. s.collected_at) b.operational.tablespaces)
    ∷ (
      quoted asm_diskgroups,
      asm_diskgroups,
      map (λ s. s.collected_at) b.operational.asm_diskgroups,
    )
    ∷ (
      quoted system_counters,
      system_counters,
      map (λ s. s.collected_at) b.operational.system_counters,
    )
    ∷ (quoted wait_classes, wait_classes, map (λ s. s.collected_at) b.operational.wait_classes)
    ∷ (
      quoted system_metrics,
      system_metrics,
      map (λ s. s.collected_at) b.operational.system_metrics,
    )
    ∷ (
      quoted data_guard_destinations,
      data_guard_destinations,
      map (λ s. s.collected_at) b.operational.data_guard_destinations,
    )
    ∷ (
      quoted data_guard_lag,
      data_guard_lag,
      map (λ s. s.collected_at) b.operational.data_guard_lag,
    )
    ∷ (
      quoted data_guard_processes,
      data_guard_processes,
      map (λ s. s.collected_at) b.operational.data_guard_processes,
    )
    ∷ (quoted scrape_statuses, scrape_statuses, map (λ s. s.collected_at) b.scrape_statuses)
    ∷ (text "runtime sample", runtime_samples, map (λ s. s.observed_at) runtime)
    ∷ []

module _ (answer : Table → Time → Option Error) where
  -- `create table if not exists` for each day, until one fails.
  unfoldable pub create_days : Table → List Time → Partitions → Partitions × Option Error
  create_days table [] ps = (ps, none)
  create_days table (d ∷ ds) ps =
      let rest = create_days table ds ((table, d) ∷ ps) in unless_refused (answer table d) ps rest

  unfoldable pub ensure_daily_partitions :
      Table → List Time → Partitions → Partitions × Option Error
  unfolding create_days days_of
  ensure_daily_partitions table times ps = create_days table (days_of times []) ps

  abbrev pub ensure_repository_ingest_partitions :
      List Time → Partitions → Partitions × Option Error
  ensure_repository_ingest_partitions times ps = ensure_daily_partitions repository_ingest times ps

  -- One call after the other; an error is returned with what it was about.
  unfoldable pub ensure_each :
      List (Text × Table × List Time) → Partitions → Partitions × Option Error
  unfolding ensure_daily_partitions
  ensure_each [] ps = (ps, none)
  ensure_each (q ∷ qs) ps =
      let made = ensure_daily_partitions q.1 q.2 ps in
      let rest = ensure_each qs made.0 in
      unless_refused (wrapped (text "ensure " ++ q.0 ++ text " partitions: ") made.1) made.0 rest

  unfoldable pub ensure_write_partitions :
      (Table → Text) → SampleBatch → List RuntimeSample → Partitions → Partitions × Option Error
  unfolding ensure_each write_times
  ensure_write_partitions quoted b runtime ps = ensure_each (write_times quoted b runtime) ps
