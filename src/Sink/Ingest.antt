-- ===== src/Sink/Ingest.antt =====
-- The ingestion accounting of the sink: how many rows of each kind WriteSamples of
-- postgresql/postgresql.go has written for a database and a day (repositoryIngestCounts,
-- collectRepositoryIngest and what they call).
pub mod Entry
pub mod Tally
pub mod Exact
use harry_performance_scrape.Prelude.{
  ◌↔◌, ◌≡◌, Bool, true, false, not, ◌&&◌, ◌||◌, Option, none, some, List, [], ◌∷◌, String,
  string_eq, nat_eq, ◌==◌, Comparable, if◌then◌else◌, arith, or_else, ℕ, eqb,
}
use harry_performance_scrape.Prelude.Int.{ℤ, pos, add64}
use harry_performance_scrape.Prelude.Dict.{Dict, lookup, insert}
use harry_performance_scrape.Clock.{Time, zero_time, is_zero, before, after}
use harry_performance_scrape.Samples.{SampleBatch}
use harry_performance_scrape.Sink.Retention.{day_start_utc}
pub use Entry.{
  RepositoryIngestKey, ingest_key_same, ingest_key_iff, ingest_key_eq, RepositoryIngestCounts,
  no_counts, later, Counter, same_counter, rows_of, additional_metric, sql_sample, sql_text,
  sql_cursor_metadata, sql_plan_operation, session_sample, blocking_session_sample,
  database_activity_sample, database_status_sample, instance_sample, resource_limit_sample,
  tablespace_sample, asm_diskgroup_sample, system_counter_sample, wait_class_sample,
  system_metric_sample, data_guard_destination, data_guard_lag, data_guard_process, scrape_status,
}
unfoldable pub use Entry.{observe, add, increment}

abbrev pub Counts : Type 0
Counts = Dict RepositoryIngestKey RepositoryIngestCounts

abbrev pub entry_of : RepositoryIngestKey → Counts → RepositoryIngestCounts
entry_of k m = or_else (lookup k m) no_counts

-- A sample without a time or a database is not counted.
abbrev pub is_counted : Time → String → Bool
is_counted at database = not (is_zero at || database == "")

abbrev pub key_of : Time → String → RepositoryIngestKey
key_of at database = record { day = day_start_utc at; database = database }

-- addRepositoryIngestValues, for values that carry a time and a database.
module _ {ℓ} {A : Type ℓ} (time_of : A → Time) (database_of : A → String) where
  unfoldable pub count_value : Counter → A → Counts → Counts
  unfolding observe increment
  count_value kind v m =
      let at = time_of v in
      let key = key_of at (database_of v) in
      if is_counted at (database_of v)
      then insert key (increment kind at (observe at (entry_of key m))) m
      else m

  unfoldable pub add_repository_ingest_values : Counter → List A → Counts → Counts
  unfolding count_value
  add_repository_ingest_values kind [] m = m
  add_repository_ingest_values kind (v ∷ vs) m =
      add_repository_ingest_values kind vs (count_value kind v m)

unfoldable pub collect_repository_ingest : SampleBatch → Counts
unfolding add_repository_ingest_values
collect_repository_ingest b =
    let counts : Counts = [] in
    let counts =
      add_repository_ingest_values (λ v. v.collected_at) (λ v. v.database) additional_metric
        b.additional_metrics counts in
    let counts =
      add_repository_ingest_values (λ v. v.collected_at) (λ v. v.database) sql_sample
        b.performance.sql counts in
    let counts =
      add_repository_ingest_values (λ v. v.collected_at) (λ v. v.database) sql_text
        b.performance.sql_texts counts in
    let counts =
      add_repository_ingest_values (λ v. v.collected_at) (λ v. v.database) sql_cursor_metadata
        b.performance.sql_details counts in
    let counts =
      add_repository_ingest_values (λ v. v.collected_at) (λ v. v.database) sql_plan_operation
        b.performance.sql_plans counts in
    let counts =
      add_repository_ingest_values (λ v. v.collected_at) (λ v. v.database) session_sample
        b.performance.sessions counts in
    let counts =
      add_repository_ingest_values (λ v. v.collected_at) (λ v. v.database) blocking_session_sample
        b.performance.blocking_sessions counts in
    let counts =
      add_repository_ingest_values (λ v. v.sample_time) (λ v. v.database) database_activity_sample
        b.performance.database_activity counts in
    let counts =
      add_repository_ingest_values (λ v. v.collected_at) (λ v. v.database) database_status_sample
        b.operational.database_status counts in
    let counts =
      add_repository_ingest_values (λ v. v.collected_at) (λ v. v.database) instance_sample
        b.operational.instances counts in
    let counts =
      add_repository_ingest_values (λ v. v.collected_at) (λ v. v.database) resource_limit_sample
        b.operational.resource_limits counts in
    let counts =
      add_repository_ingest_values (λ v. v.collected_at) (λ v. v.database) tablespace_sample
        b.operational.tablespaces counts in
    let counts =
      add_repository_ingest_values (λ v. v.collected_at) (λ v. v.database) asm_diskgroup_sample
        b.operational.asm_diskgroups counts in
    let counts =
      add_repository_ingest_values (λ v. v.collected_at) (λ v. v.database) system_counter_sample
        b.operational.system_counters counts in
    let counts =
      add_repository_ingest_values (λ v. v.collected_at) (λ v. v.database) wait_class_sample
        b.operational.wait_classes counts in
    let counts =
      add_repository_ingest_values (λ v. v.collected_at) (λ v. v.database) system_metric_sample
        b.operational.system_metrics counts in
    let counts =
      add_repository_ingest_values (λ v. v.collected_at) (λ v. v.database) data_guard_destination
        b.operational.data_guard_destinations counts in
    let counts =
      add_repository_ingest_values (λ v. v.collected_at) (λ v. v.database) data_guard_lag
        b.operational.data_guard_lag counts in
    let counts =
      add_repository_ingest_values (λ v. v.collected_at) (λ v. v.database) data_guard_process
        b.operational.data_guard_processes counts in
    let counts =
      add_repository_ingest_values (λ v. v.collected_at) (λ v. v.database) scrape_status
        b.scrape_statuses counts in
    counts
