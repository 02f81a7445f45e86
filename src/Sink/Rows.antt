-- ===== src/Sink/Rows.antt =====
-- The rows of a batch, and the partitions that ensureWritePartitions of postgresql/postgresql.go leaves.
use harry_performance_scrape.Prelude.{◌≡◌, Option, none, List, [], ◌∷◌, map, All}
use harry_performance_scrape.Clock.{Time}
use harry_performance_scrape.Texts.{Text}
use harry_performance_scrape.Errors.{Error}
use harry_performance_scrape.Samples.{SampleBatch, RuntimeSample}
use harry_performance_scrape.Sink.Partitions.{
  Table, Partitions, write_times, ensure_write_partitions,
}
use harry_performance_scrape.Sink.Covered.{IsCovered, ensure_each-IsCovered}

-- Each row of a batch, and each runtime sample, has in its table the partition of the day of the time by
-- which that table is partitioned, or has no such time.
pub record HasPartitions (b : SampleBatch) (runtime : List RuntimeSample) (ps : Partitions)
    : Type 0 where
  pub metric_rows : All (λ s. IsCovered Table.samples ps s.collected_at) b.additional_metrics
  pub sql_rows : All (λ s. IsCovered Table.sql_samples ps s.collected_at) b.performance.sql
  pub session_rows :
      All (λ s. IsCovered Table.session_samples ps s.collected_at) b.performance.sessions
  pub blocking_rows :
      All (λ s. IsCovered Table.blocking_sessions ps s.collected_at) b.performance.blocking_sessions
  pub activity_rows :
      All (λ s. IsCovered Table.database_activity ps s.sample_time) b.performance.database_activity
  pub status_rows :
      All (λ s. IsCovered Table.database_status ps s.collected_at) b.operational.database_status
  pub instance_rows : All (λ s. IsCovered Table.instances ps s.collected_at) b.operational.instances
  pub limit_rows :
      All (λ s. IsCovered Table.resource_limits ps s.collected_at) b.operational.resource_limits
  pub tablespace_rows :
      All (λ s. IsCovered Table.tablespaces ps s.collected_at) b.operational.tablespaces
  pub diskgroup_rows :
      All (λ s. IsCovered Table.asm_diskgroups ps s.collected_at) b.operational.asm_diskgroups
  pub counter_rows :
      All (λ s. IsCovered Table.system_counters ps s.collected_at) b.operational.system_counters
  pub wait_rows :
      All (λ s. IsCovered Table.wait_classes ps s.collected_at) b.operational.wait_classes
  pub system_rows :
      All (λ s. IsCovered Table.system_metrics ps s.collected_at) b.operational.system_metrics
  pub destination_rows :
      All
        (λ s. IsCovered Table.data_guard_destinations ps s.collected_at)
        b.operational.data_guard_destinations
  pub lag_rows :
      All (λ s. IsCovered Table.data_guard_lag ps s.collected_at) b.operational.data_guard_lag
  pub process_rows :
      All
        (λ s. IsCovered Table.data_guard_processes ps s.collected_at)
        b.operational.data_guard_processes
  pub scrape_status_rows :
      All (λ s. IsCovered Table.scrape_statuses ps s.collected_at) b.scrape_statuses
  pub runtime_rows : All (λ s. IsCovered Table.runtime_samples ps s.observed_at) runtime

of_each :
    {A : Type 0} (P : Time → Type 0) (time_of : A → Time) (xs : List A)
    → All P (map time_of xs)
    → All (λ x. P (time_of x)) xs
of_each P time_of [] h = tt
of_each P time_of (x ∷ xs) (p, h) = (p, of_each P time_of xs h)

-- Where ensureWritePartitions reports no error, each row of the batch and each runtime sample, by the time
-- by which its table is partitioned, finds in its table the partition of the day of that time, unless the
-- time is zero.
pub ensure_write_partitions-IsCovered :
    (answer : Table → Time → Option Error) (quoted : Table → Text) (b : SampleBatch)
    (runtime : List RuntimeSample) (ps : Partitions)
    → (ensure_write_partitions answer quoted b runtime ps).1 ≡ none
    → HasPartitions b runtime (ensure_write_partitions answer quoted b runtime ps).0
unfolding ensure_write_partitions write_times
ensure_write_partitions-IsCovered answer quoted b runtime ps h =
    let made = (ensure_write_partitions answer quoted b runtime ps).0 in
    let all = ensure_each-IsCovered answer (write_times quoted b runtime) ps h in
    record {
      metric_rows =
          of_each (IsCovered Table.samples made) (λ s. s.collected_at) b.additional_metrics all.0;
      sql_rows =
          of_each (IsCovered Table.sql_samples made) (λ s. s.collected_at) b.performance.sql
            all.1.0;
      session_rows =
          of_each (IsCovered Table.session_samples made) (λ s. s.collected_at)
            b.performance.sessions all.1.1.0;
      blocking_rows =
          of_each (IsCovered Table.blocking_sessions made) (λ s. s.collected_at)
            b.performance.blocking_sessions all.1.1.1.0;
      activity_rows =
          of_each (IsCovered Table.database_activity made) (λ s. s.sample_time)
            b.performance.database_activity all.1.1.1.1.0;
      status_rows =
          of_each (IsCovered Table.database_status made) (λ s. s.collected_at)
            b.operational.database_status all.1.1.1.1.1.0;
      instance_rows =
          of_each (IsCovered Table.instances made) (λ s. s.collected_at) b.operational.instances
            all.1.1.1.1.1.1.0;
      limit_rows =
          of_each (IsCovered Table.resource_limits made) (λ s. s.collected_at)
            b.operational.resource_limits all.1.1.1.1.1.1.1.0;
      tablespace_rows =
          of_each (IsCovered Table.tablespaces made) (λ s. s.collected_at) b.operational.tablespaces
            all.1.1.1.1.1.1.1.1.0;
      diskgroup_rows =
          of_each (IsCovered Table.asm_diskgroups made) (λ s. s.collected_at)
            b.operational.asm_diskgroups all.1.1.1.1.1.1.1.1.1.0;
      counter_rows =
          of_each (IsCovered Table.system_counters made) (λ s. s.collected_at)
            b.operational.system_counters all.1.1.1.1.1.1.1.1.1.1.0;
      wait_rows =
          of_each (IsCovered Table.wait_classes made) (λ s. s.collected_at)
            b.operational.wait_classes all.1.1.1.1.1.1.1.1.1.1.1.0;
      system_rows =
          of_each (IsCovered Table.system_metrics made) (λ s. s.collected_at)
            b.operational.system_metrics all.1.1.1.1.1.1.1.1.1.1.1.1.0;
      destination_rows =
          of_each (IsCovered Table.data_guard_destinations made) (λ s. s.collected_at)
            b.operational.data_guard_destinations all.1.1.1.1.1.1.1.1.1.1.1.1.1.0;
      lag_rows =
          of_each (IsCovered Table.data_guard_lag made) (λ s. s.collected_at)
            b.operational.data_guard_lag all.1.1.1.1.1.1.1.1.1.1.1.1.1.1.0;
      process_rows =
          of_each (IsCovered Table.data_guard_processes made) (λ s. s.collected_at)
            b.operational.data_guard_processes all.1.1.1.1.1.1.1.1.1.1.1.1.1.1.1.0;
      scrape_status_rows =
          of_each (IsCovered Table.scrape_statuses made) (λ s. s.collected_at) b.scrape_statuses
            all.1.1.1.1.1.1.1.1.1.1.1.1.1.1.1.1.0;
      runtime_rows =
          of_each (IsCovered Table.runtime_samples made) (λ s. s.observed_at) runtime
            all.1.1.1.1.1.1.1.1.1.1.1.1.1.1.1.1.1.0;
    }
