-- ===== src/Sink/Ingest/Exact.antt =====
-- collectRepositoryIngest of postgresql/postgresql.go against a plain count of the batch.
use harry_performance_scrape.Prelude.{ℕ, ◌+◌, ◌≡◌, if◌then◌else◌, arith, count_if, ap, ◌∙◌}
use harry_performance_scrape.Prelude.Int.{pos, wrap64}
use harry_performance_scrape.Prelude.Dict.{HasUniqueKeys}
use harry_performance_scrape.Samples.{SampleBatch}
use harry_performance_scrape.Sink.Ingest.{
  RepositoryIngestKey, ingest_key_eq, Counter, same_counter, collect_repository_ingest,
  additional_metric, sql_sample, sql_text, sql_cursor_metadata, sql_plan_operation, session_sample,
  blocking_session_sample, database_activity_sample, database_status_sample, instance_sample,
  resource_limit_sample, tablespace_sample, asm_diskgroup_sample, system_counter_sample,
  wait_class_sample, system_metric_sample, data_guard_destination, data_guard_lag,
  data_guard_process, scrape_status,
}
use harry_performance_scrape.Sink.Ingest.Tally.{
  counts_for, counted, counted-add_repository_ingest_values, counted_nothing,
  add_repository_ingest_values-HasUniqueKeys,
}

module _ (key : RepositoryIngestKey) (b : SampleBatch) where
  -- The rows of a kind in the batch that have the database and the day of the key.
  abbrev pub number_of : Counter → ℕ
  number_of additional_metric =
      count_if (counts_for (λ v. v.collected_at) (λ v. v.database) key) b.additional_metrics
  number_of sql_sample =
      count_if (counts_for (λ v. v.collected_at) (λ v. v.database) key) b.performance.sql
  number_of sql_text =
      count_if (counts_for (λ v. v.collected_at) (λ v. v.database) key) b.performance.sql_texts
  number_of sql_cursor_metadata =
      count_if (counts_for (λ v. v.collected_at) (λ v. v.database) key) b.performance.sql_details
  number_of sql_plan_operation =
      count_if (counts_for (λ v. v.collected_at) (λ v. v.database) key) b.performance.sql_plans
  number_of session_sample =
      count_if (counts_for (λ v. v.collected_at) (λ v. v.database) key) b.performance.sessions
  number_of blocking_session_sample =
      count_if (counts_for (λ v. v.collected_at) (λ v. v.database) key)
        b.performance.blocking_sessions
  number_of database_activity_sample =
      count_if (counts_for (λ v. v.sample_time) (λ v. v.database) key)
        b.performance.database_activity
  number_of database_status_sample =
      count_if (counts_for (λ v. v.collected_at) (λ v. v.database) key)
        b.operational.database_status
  number_of instance_sample =
      count_if (counts_for (λ v. v.collected_at) (λ v. v.database) key) b.operational.instances
  number_of resource_limit_sample =
      count_if (counts_for (λ v. v.collected_at) (λ v. v.database) key)
        b.operational.resource_limits
  number_of tablespace_sample =
      count_if (counts_for (λ v. v.collected_at) (λ v. v.database) key) b.operational.tablespaces
  number_of asm_diskgroup_sample =
      count_if (counts_for (λ v. v.collected_at) (λ v. v.database) key) b.operational.asm_diskgroups
  number_of system_counter_sample =
      count_if (counts_for (λ v. v.collected_at) (λ v. v.database) key)
        b.operational.system_counters
  number_of wait_class_sample =
      count_if (counts_for (λ v. v.collected_at) (λ v. v.database) key) b.operational.wait_classes
  number_of system_metric_sample =
      count_if (counts_for (λ v. v.collected_at) (λ v. v.database) key) b.operational.system_metrics
  number_of data_guard_destination =
      count_if (counts_for (λ v. v.collected_at) (λ v. v.database) key)
        b.operational.data_guard_destinations
  number_of data_guard_lag =
      count_if (counts_for (λ v. v.collected_at) (λ v. v.database) key) b.operational.data_guard_lag
  number_of data_guard_process =
      count_if (counts_for (λ v. v.collected_at) (λ v. v.database) key)
        b.operational.data_guard_processes
  number_of scrape_status =
      count_if (counts_for (λ v. v.collected_at) (λ v. v.database) key) b.scrape_statuses

  abbrev if_counted : Counter → Counter → ℕ
  if_counted k j = if same_counter k j then number_of j else 0

  abbrev total : Counter → ℕ
  total k =
      0
      + if_counted k additional_metric
      + if_counted k sql_sample
      + if_counted k sql_text
      + if_counted k sql_cursor_metadata
      + if_counted k sql_plan_operation
      + if_counted k session_sample
      + if_counted k blocking_session_sample
      + if_counted k database_activity_sample
      + if_counted k database_status_sample
      + if_counted k instance_sample
      + if_counted k resource_limit_sample
      + if_counted k tablespace_sample
      + if_counted k asm_diskgroup_sample
      + if_counted k system_counter_sample
      + if_counted k wait_class_sample
      + if_counted k system_metric_sample
      + if_counted k data_guard_destination
      + if_counted k data_guard_lag
      + if_counted k data_guard_process
      + if_counted k scrape_status

  total_is : (k : Counter) → total k ≡ number_of k
  total_is additional_metric = omega arith
  total_is k = omega arith

  -- Every counter that collectRepositoryIngest has for a database and a day is the number of the
  -- batch's rows of that kind that have them, modulo 2^64.
  pub counted-collect_repository_ingest :
      (k : Counter) → counted k key (collect_repository_ingest b) ≡ wrap64 (pos (number_of k))
  unfolding collect_repository_ingest
  counted-collect_repository_ingest k =
      let c1 =
        counted-add_repository_ingest_values (λ v. v.collected_at) (λ v. v.database) k
          additional_metric key b.additional_metrics _ _ (counted_nothing k key) in
      let c2 =
        counted-add_repository_ingest_values (λ v. v.collected_at) (λ v. v.database) k sql_sample
          key b.performance.sql _ _ c1 in
      let c3 =
        counted-add_repository_ingest_values (λ v. v.collected_at) (λ v. v.database) k sql_text key
          b.performance.sql_texts _ _ c2 in
      let c4 =
        counted-add_repository_ingest_values (λ v. v.collected_at) (λ v. v.database) k
          sql_cursor_metadata key b.performance.sql_details _ _ c3 in
      let c5 =
        counted-add_repository_ingest_values (λ v. v.collected_at) (λ v. v.database) k
          sql_plan_operation key b.performance.sql_plans _ _ c4 in
      let c6 =
        counted-add_repository_ingest_values (λ v. v.collected_at) (λ v. v.database) k
          session_sample key b.performance.sessions _ _ c5 in
      let c7 =
        counted-add_repository_ingest_values (λ v. v.collected_at) (λ v. v.database) k
          blocking_session_sample key b.performance.blocking_sessions _ _ c6 in
      let c8 =
        counted-add_repository_ingest_values (λ v. v.sample_time) (λ v. v.database) k
          database_activity_sample key b.performance.database_activity _ _ c7 in
      let c9 =
        counted-add_repository_ingest_values (λ v. v.collected_at) (λ v. v.database) k
          database_status_sample key b.operational.database_status _ _ c8 in
      let c10 =
        counted-add_repository_ingest_values (λ v. v.collected_at) (λ v. v.database) k
          instance_sample key b.operational.instances _ _ c9 in
      let c11 =
        counted-add_repository_ingest_values (λ v. v.collected_at) (λ v. v.database) k
          resource_limit_sample key b.operational.resource_limits _ _ c10 in
      let c12 =
        counted-add_repository_ingest_values (λ v. v.collected_at) (λ v. v.database) k
          tablespace_sample key b.operational.tablespaces _ _ c11 in
      let c13 =
        counted-add_repository_ingest_values (λ v. v.collected_at) (λ v. v.database) k
          asm_diskgroup_sample key b.operational.asm_diskgroups _ _ c12 in
      let c14 =
        counted-add_repository_ingest_values (λ v. v.collected_at) (λ v. v.database) k
          system_counter_sample key b.operational.system_counters _ _ c13 in
      let c15 =
        counted-add_repository_ingest_values (λ v. v.collected_at) (λ v. v.database) k
          wait_class_sample key b.operational.wait_classes _ _ c14 in
      let c16 =
        counted-add_repository_ingest_values (λ v. v.collected_at) (λ v. v.database) k
          system_metric_sample key b.operational.system_metrics _ _ c15 in
      let c17 =
        counted-add_repository_ingest_values (λ v. v.collected_at) (λ v. v.database) k
          data_guard_destination key b.operational.data_guard_destinations _ _ c16 in
      let c18 =
        counted-add_repository_ingest_values (λ v. v.collected_at) (λ v. v.database) k
          data_guard_lag key b.operational.data_guard_lag _ _ c17 in
      let c19 =
        counted-add_repository_ingest_values (λ v. v.collected_at) (λ v. v.database) k
          data_guard_process key b.operational.data_guard_processes _ _ c18 in
      let c20 =
        counted-add_repository_ingest_values (λ v. v.collected_at) (λ v. v.database) k scrape_status
          key b.scrape_statuses _ _ c19 in
      c20 ∙ ap (λ t. wrap64 (pos t)) (total_is k)

pub collect_repository_ingest-HasUniqueKeys :
    (b : SampleBatch) → HasUniqueKeys (collect_repository_ingest b)
unfolding collect_repository_ingest
collect_repository_ingest-HasUniqueKeys b =
    let u1 =
      add_repository_ingest_values-HasUniqueKeys (λ v. v.collected_at) (λ v. v.database)
        additional_metric b.additional_metrics _ tt in
    let u2 =
      add_repository_ingest_values-HasUniqueKeys (λ v. v.collected_at) (λ v. v.database) sql_sample
        b.performance.sql _ u1 in
    let u3 =
      add_repository_ingest_values-HasUniqueKeys (λ v. v.collected_at) (λ v. v.database) sql_text
        b.performance.sql_texts _ u2 in
    let u4 =
      add_repository_ingest_values-HasUniqueKeys (λ v. v.collected_at) (λ v. v.database)
        sql_cursor_metadata b.performance.sql_details _ u3 in
    let u5 =
      add_repository_ingest_values-HasUniqueKeys (λ v. v.collected_at) (λ v. v.database)
        sql_plan_operation b.performance.sql_plans _ u4 in
    let u6 =
      add_repository_ingest_values-HasUniqueKeys (λ v. v.collected_at) (λ v. v.database)
        session_sample b.performance.sessions _ u5 in
    let u7 =
      add_repository_ingest_values-HasUniqueKeys (λ v. v.collected_at) (λ v. v.database)
        blocking_session_sample b.performance.blocking_sessions _ u6 in
    let u8 =
      add_repository_ingest_values-HasUniqueKeys (λ v. v.sample_time) (λ v. v.database)
        database_activity_sample b.performance.database_activity _ u7 in
    let u9 =
      add_repository_ingest_values-HasUniqueKeys (λ v. v.collected_at) (λ v. v.database)
        database_status_sample b.operational.database_status _ u8 in
    let u10 =
      add_repository_ingest_values-HasUniqueKeys (λ v. v.collected_at) (λ v. v.database)
        instance_sample b.operational.instances _ u9 in
    let u11 =
      add_repository_ingest_values-HasUniqueKeys (λ v. v.collected_at) (λ v. v.database)
        resource_limit_sample b.operational.resource_limits _ u10 in
    let u12 =
      add_repository_ingest_values-HasUniqueKeys (λ v. v.collected_at) (λ v. v.database)
        tablespace_sample b.operational.tablespaces _ u11 in
    let u13 =
      add_repository_ingest_values-HasUniqueKeys (λ v. v.collected_at) (λ v. v.database)
        asm_diskgroup_sample b.operational.asm_diskgroups _ u12 in
    let u14 =
      add_repository_ingest_values-HasUniqueKeys (λ v. v.collected_at) (λ v. v.database)
        system_counter_sample b.operational.system_counters _ u13 in
    let u15 =
      add_repository_ingest_values-HasUniqueKeys (λ v. v.collected_at) (λ v. v.database)
        wait_class_sample b.operational.wait_classes _ u14 in
    let u16 =
      add_repository_ingest_values-HasUniqueKeys (λ v. v.collected_at) (λ v. v.database)
        system_metric_sample b.operational.system_metrics _ u15 in
    let u17 =
      add_repository_ingest_values-HasUniqueKeys (λ v. v.collected_at) (λ v. v.database)
        data_guard_destination b.operational.data_guard_destinations _ u16 in
    let u18 =
      add_repository_ingest_values-HasUniqueKeys (λ v. v.collected_at) (λ v. v.database)
        data_guard_lag b.operational.data_guard_lag _ u17 in
    let u19 =
      add_repository_ingest_values-HasUniqueKeys (λ v. v.collected_at) (λ v. v.database)
        data_guard_process b.operational.data_guard_processes _ u18 in
    let u20 =
      add_repository_ingest_values-HasUniqueKeys (λ v. v.collected_at) (λ v. v.database)
        scrape_status b.scrape_statuses _ u19 in
    u20
