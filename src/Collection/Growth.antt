-- ===== src/Collection/Growth.antt =====
-- How many samples each query of collector/operational.go and collector/dataguard.go adds.
use harry_performance_scrape.Prelude.{
  ℕ, zero, suc, ◌+◌, ◌≤◌, ◌≡◌, refl, Bool, true, false, not, ◌||◌, Option, none, some, List, [],
  ◌∷◌, String, arith, if◌then◌else◌, length-append, inl, inr, Bool-cases, is_some,
}
use harry_performance_scrape.Clock.{Time}
use harry_performance_scrape.Texts.{text}
use harry_performance_scrape.Errors.{Error}
use harry_performance_scrape.Counters.{Counters}
use harry_performance_scrape.Database.{Database}
use harry_performance_scrape.Samples.Operational.{OperationalSamples, DataGuardLagSample, count}
use harry_performance_scrape.Collection.DataGuard.{
  Formats, DataGuardAnswers, DataGuardLagRow, scrape_data_guard_destinations, scrape_data_guard_lag,
  scrape_data_guard_processes, append_lag, append_destination, append_process, discover, visit_lag,
  empty_lag, scrape_detected, scrape_data_guard,
}
use harry_performance_scrape.Collection.Interval.{equal_fold}
use harry_performance_scrape.Collection.Applied.{length-Pairwise, applied-Completes}
use harry_performance_scrape.Collection.Merges.{
  DatabaseIdentityRow, InstanceMemoryRow, TablespaceAllocationRow, apply_database_identity,
  apply_instance_memory, apply_tablespace_allocation,
}
use harry_performance_scrape.Collection.Rows.{
  DatabaseStatusRow, InstanceRow, ResourceLimitRow, TablespaceRow, AsmDiskgroupRow, SystemMetricRow,
  OperationalCounterRow, DataGuardDestinationRow, DataGuardProcessRow, database_status_sample,
  instance_sample, resource_limit_sample, tablespace_sample, asm_diskgroup_sample,
  system_metric_sample, system_counter_sample, wait_class_sample, data_guard_destination_sample,
  data_guard_process_sample,
}
use harry_performance_scrape.Collection.Query.{QueryAnswer, query_operational_rows}
use harry_performance_scrape.Collection.Scrapers.{
  Scraper, scrape_database_status, scrape_instances, scrape_resource_limits, scrape_tablespaces,
  scrape_asm_diskgroups, scrape_system_metrics, scrape_database_identity, scrape_instance_memory,
  scrape_tablespace_allocation, scrape_system_counters, scrape_wait_classes, collect_rows,
  unless_failed,
}
use harry_performance_scrape.Collection.Totals.{
  query_operational_rows-keep, length-scrape_rows, length-scrape_operational_counter_rows,
}

abbrev pub Appends : Scraper → Type 0
Appends scrape = (out : OperationalSamples) → count (scrape out).0 ≡ count out + (scrape out).1

abbrev pub Keeps : Scraper → Type 0
Keeps scrape = (out : OperationalSamples) → count (scrape out).0 ≡ count out

module _ (d : Database) (collected : Time) where
  pub scrape_database_status-Appends :
      (q : QueryAnswer DatabaseStatusRow) → Appends (scrape_database_status q d collected)
  unfolding scrape_database_status count
  scrape_database_status-Appends q out =
      omega (
        arith,
        length-scrape_rows (database_status_sample collected d.name) q d out.database_status,
      )

  pub scrape_instances-Appends :
      (q : QueryAnswer InstanceRow) → Appends (scrape_instances q d collected)
  unfolding scrape_instances count
  scrape_instances-Appends q out =
      omega (arith, length-scrape_rows (instance_sample collected d.name) q d out.instances)

  pub scrape_resource_limits-Appends :
      (q : QueryAnswer ResourceLimitRow) → Appends (scrape_resource_limits q d collected)
  unfolding scrape_resource_limits count
  scrape_resource_limits-Appends q out =
      omega
        (arith, length-scrape_rows (resource_limit_sample collected d.name) q d out.resource_limits)

  pub scrape_tablespaces-Appends :
      (q : QueryAnswer TablespaceRow) → Appends (scrape_tablespaces q d collected)
  unfolding scrape_tablespaces count
  scrape_tablespaces-Appends q out =
      omega (arith, length-scrape_rows (tablespace_sample collected d.name) q d out.tablespaces)

  pub scrape_asm_diskgroups-Appends :
      (q : QueryAnswer AsmDiskgroupRow) → Appends (scrape_asm_diskgroups q d collected)
  unfolding scrape_asm_diskgroups count
  scrape_asm_diskgroups-Appends q out =
      omega
        (arith, length-scrape_rows (asm_diskgroup_sample collected d.name) q d out.asm_diskgroups)

  pub scrape_system_metrics-Appends :
      (q : QueryAnswer SystemMetricRow) → Appends (scrape_system_metrics q d collected)
  unfolding scrape_system_metrics count
  scrape_system_metrics-Appends q out =
      omega
        (arith, length-scrape_rows (system_metric_sample collected d.name) q d out.system_metrics)

  pub count-scrape_system_counters :
      (q : QueryAnswer OperationalCounterRow) (g : OperationalSamples × Counters)
      → let r = scrape_system_counters q d collected g in count r.0.0 ≡ count g.0 + r.1
  unfolding scrape_system_counters count
  count-scrape_system_counters q (out, counters) = omega (
    arith,
    length-scrape_operational_counter_rows "system" (system_counter_sample collected d.name) q d
        collected out.system_counters counters,
  )

  pub count-scrape_wait_classes :
      (q : QueryAnswer OperationalCounterRow) (g : OperationalSamples × Counters)
      → let r = scrape_wait_classes q d collected g in count r.0.0 ≡ count g.0 + r.1
  unfolding scrape_wait_classes count
  count-scrape_wait_classes q (out, counters) = omega (
    arith,
    length-scrape_operational_counter_rows "wait" (wait_class_sample collected d.name) q d collected
        out.wait_classes counters,
  )

unless_failed-keeps :
    (o : Option Error) (out : OperationalSamples) (later : OperationalSamples × ℕ)
    → count later.0 ≡ count out
    → count (unless_failed o out later).0 ≡ count out
unless_failed-keeps none out later h = h
unless_failed-keeps (some e) out later h = refl

pub scrape_database_identity-Keeps :
    (q : QueryAnswer DatabaseIdentityRow) (d : Database) → Keeps (scrape_database_identity q d)
unfolding scrape_database_identity count
scrape_database_identity-Keeps q d out =
    let rows : List DatabaseIdentityRow = (collect_rows q d).0 in
    let l = (apply_database_identity out.database_status rows).0 in
    unless_failed-keeps (collect_rows q d).1 out
      (record out { database_status = l }, (apply_database_identity out.database_status rows).1)
      (omega (
        arith,
        length-Pairwise _ out.database_status l
            (applied-Completes out.database_status rows [] [] [] []).0.0,
      ))

pub scrape_instance_memory-Keeps :
    (q : QueryAnswer InstanceMemoryRow) (d : Database) → Keeps (scrape_instance_memory q d)
unfolding scrape_instance_memory count
scrape_instance_memory-Keeps q d out =
    let rows : List InstanceMemoryRow = (collect_rows q d).0 in
    let l = (apply_instance_memory out.instances rows).0 in
    unless_failed-keeps (collect_rows q d).1 out
      (record out { instances = l }, (apply_instance_memory out.instances rows).1)
      (omega (
        arith,
        length-Pairwise _ out.instances l (applied-Completes [] [] out.instances rows [] []).1.0,
      ))

pub scrape_tablespace_allocation-Keeps :
    (q : QueryAnswer TablespaceAllocationRow) (d : Database)
    → Keeps (scrape_tablespace_allocation q d)
unfolding scrape_tablespace_allocation count
scrape_tablespace_allocation-Keeps q d out =
    let rows : List TablespaceAllocationRow = (collect_rows q d).0 in
    let l = (apply_tablespace_allocation out.tablespaces rows).0 in
    unless_failed-keeps (collect_rows q d).1 out
      (record out { tablespaces = l }, (apply_tablespace_allocation out.tablespaces rows).1)
      (omega (
        arith,
        length-Pairwise _ out.tablespaces l
            (applied-Completes [] [] [] [] out.tablespaces rows).2.0,
      ))

if_grows :
    (n : ℕ) (b : Bool) (x y : OperationalSamples × Option Error)
    → n ≤ count x.0
    → n ≤ count y.0
    → n ≤ count (if b then x else y).0
if_grows n true x y h k = h
if_grows n false x y h k = k

module _ (d : Database) (collected : Time) where
  destinations_grow :
      (q : QueryAnswer DataGuardDestinationRow) (out : OperationalSamples)
      → count out ≤ count (scrape_data_guard_destinations q d collected out).0
  unfolding scrape_data_guard_destinations append_destination count
  destinations_grow q out =
      query_operational_rows-keep (append_destination d collected) (λ o. count out ≤ count o)
        (λ a o h. omega (
          arith,
          length-append o.data_guard_destinations
              (data_guard_destination_sample collected d.name a ∷ []),
        ))
        q d out (omega arith)

  processes_grow :
      (q : QueryAnswer DataGuardProcessRow) (role : String) (out : OperationalSamples)
      → count out ≤ count (scrape_data_guard_processes q d collected role out).0
  unfolding scrape_data_guard_processes append_process count
  processes_grow q role out =
      query_operational_rows-keep (append_process d collected role) (λ o. count out ≤ count o)
        (λ a o h. omega (
          arith,
          length-append o.data_guard_processes
              (data_guard_process_sample collected d.name role a ∷ []),
        ))
        q d out (omega arith)

  append_lag_grows :
      (r : (DataGuardLagSample × ℕ) × Option Error) (out : OperationalSamples)
      → count out ≤ count (append_lag r out).0
  unfolding append_lag count
  append_lag_grows (s, some e) out = omega arith
  append_lag_grows ((s, zero), none) out = omega arith
  append_lag_grows ((s, suc n), none) out = omega (arith, length-append out.data_guard_lag (s ∷ []))

  lag_grows :
      (f : Formats) (q : QueryAnswer DataGuardLagRow) (role : String) (out : OperationalSamples)
      → count out ≤ count (scrape_data_guard_lag f q d collected role out).0
  unfolding scrape_data_guard_lag
  lag_grows f q role out =
      append_lag_grows
        (query_operational_rows (visit_lag f) q d (empty_lag collected d.name role, 0)) out

  detected_grows :
      (f : Formats) (a : DataGuardAnswers) (role : String) (out : OperationalSamples)
      → count out ≤ count (scrape_detected f a d collected role out).0
  unfolding scrape_detected
  detected_grows f a role out =
      let o1 = (scrape_data_guard_destinations a.destinations d collected out).0 in
      let lagged = not (equal_fold (text role) (text "PRIMARY")) in
      let r2 = if lagged then scrape_data_guard_lag f a.lag d collected role o1 else (o1, none) in
      let h1 : count out ≤ count o1 = destinations_grow a.destinations out in
      let h2 : count out ≤ count r2.0 =
        if_grows (count out) lagged (scrape_data_guard_lag f a.lag d collected role o1) (o1, none)
          (omega (arith, h1, lag_grows f a.lag role o1)) h1 in
      if_grows (count out) (equal_fold (text role) (text "PHYSICAL STANDBY"))
        (scrape_data_guard_processes a.processes d collected role r2.0) (r2.0, none)
        (omega (arith, h2, processes_grow a.processes role r2.0)) h2

  -- By what was discovered.
  pub scrape_data_guard-Appends :
      (f : Formats) (a : DataGuardAnswers) → Appends (scrape_data_guard f a d collected)
  unfolding scrape_data_guard
  scrape_data_guard-Appends f a out =
      let found = query_operational_rows discover a.discovery d ("", false) in
      elim (Bool-cases (is_some found.1 || not found.0.1)) [
        | inl nothing ↦ rw nothing (omega arith)
        | inr present ↦ rw present (omega (arith, detected_grows f a found.0.0 out))
      ]
