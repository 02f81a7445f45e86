-- ===== src/Collection/Scrapers.antt =====
-- The queries of collector/operational.go, each with the samples that it appends or completes.
use harry_performance_scrape.Prelude.{
  ℕ, suc, ◌-◌, Option, none, some, List, [], ◌∷◌, ◌++◌, String, length,
}
use harry_performance_scrape.Clock.{Time}
use harry_performance_scrape.Errors.{Error}
use harry_performance_scrape.Database.{Database}
use harry_performance_scrape.Counters.{Counters, Delta, operational_delta, OperationalCounterKey}
use harry_performance_scrape.Samples.Operational.{OperationalSamples}
use harry_performance_scrape.Collection.Rows.{
  DatabaseStatusRow, InstanceRow, ResourceLimitRow, TablespaceRow, AsmDiskgroupRow, SystemMetricRow,
  OperationalCounterRow, database_status_sample, instance_sample, resource_limit_sample,
  tablespace_sample, asm_diskgroup_sample, system_metric_sample, system_counter_sample,
  wait_class_sample,
}
use harry_performance_scrape.Collection.Query.{QueryAnswer, query_operational_rows}
use harry_performance_scrape.Collection.Merges.{
  DatabaseIdentityRow, InstanceMemoryRow, TablespaceAllocationRow, apply_database_identity,
  apply_instance_memory, apply_tablespace_allocation,
}

-- A closure that appends a sample for each row.
module _ {A B : Type 0} (sample_of : A → B) where
  abbrev pub append_sample : A → List B → List B × Option Error
  append_sample r out = (out ++ (sample_of r ∷ []), none)

  -- The rows as samples, behind those of `out`: the list, how many are new, and the error.
  unfoldable pub scrape_rows : QueryAnswer A → Database → List B → List B × ℕ × Option Error
  unfolding query_operational_rows
  scrape_rows q d out =
      let (out', err) = query_operational_rows append_sample q d out in
      (out', length out' - length out, err)

-- The rows of a query whose rows are kept apart, or its error.
unfoldable pub collect_rows : {A : Type 0} → QueryAnswer A → Database → List A × Option Error
unfolding query_operational_rows
collect_rows q d = query_operational_rows (append_sample (λ r. r)) q d []

abbrev pub Scraper : Type 0
Scraper = OperationalSamples → OperationalSamples × ℕ × Option Error

unfoldable pub scrape_database_status : QueryAnswer DatabaseStatusRow → Database → Time → Scraper
unfolding scrape_rows
scrape_database_status q d collected out =
    let (l, n, err) =
      scrape_rows (database_status_sample collected d.name) q d out.database_status in
    (record out { database_status = l }, n, err)

unfoldable pub scrape_instances : QueryAnswer InstanceRow → Database → Time → Scraper
unfolding scrape_rows
scrape_instances q d collected out =
    let (l, n, err) = scrape_rows (instance_sample collected d.name) q d out.instances in
    (record out { instances = l }, n, err)

unfoldable pub scrape_resource_limits : QueryAnswer ResourceLimitRow → Database → Time → Scraper
unfolding scrape_rows
scrape_resource_limits q d collected out =
    let (l, n, err) =
      scrape_rows (resource_limit_sample collected d.name) q d out.resource_limits in
    (record out { resource_limits = l }, n, err)

unfoldable pub scrape_tablespaces : QueryAnswer TablespaceRow → Database → Time → Scraper
unfolding scrape_rows
scrape_tablespaces q d collected out =
    let (l, n, err) = scrape_rows (tablespace_sample collected d.name) q d out.tablespaces in
    (record out { tablespaces = l }, n, err)

unfoldable pub scrape_asm_diskgroups : QueryAnswer AsmDiskgroupRow → Database → Time → Scraper
unfolding scrape_rows
scrape_asm_diskgroups q d collected out =
    let (l, n, err) = scrape_rows (asm_diskgroup_sample collected d.name) q d out.asm_diskgroups in
    (record out { asm_diskgroups = l }, n, err)

unfoldable pub scrape_system_metrics : QueryAnswer SystemMetricRow → Database → Time → Scraper
unfolding scrape_rows
scrape_system_metrics q d collected out =
    let (l, n, err) = scrape_rows (system_metric_sample collected d.name) q d out.system_metrics in
    (record out { system_metrics = l }, n, err)

-- `if err != nil { return 0, err }`, and then the completed samples.
abbrev pub unless_failed :
    Option Error
    → OperationalSamples
    → OperationalSamples × ℕ
    → OperationalSamples × ℕ × Option Error
unless_failed none out (completed, updated) = (completed, updated, none)
unless_failed (some e) out later = (out, 0, some e)

unfoldable pub scrape_database_identity : QueryAnswer DatabaseIdentityRow → Database → Scraper
unfolding collect_rows apply_database_identity
scrape_database_identity q d out =
    let (found, err) = collect_rows q d in
    let (l, updated) = apply_database_identity out.database_status found in
    unless_failed err out (record out { database_status = l }, updated)

unfoldable pub scrape_instance_memory : QueryAnswer InstanceMemoryRow → Database → Scraper
unfolding collect_rows apply_instance_memory
scrape_instance_memory q d out =
    let (found, err) = collect_rows q d in
    let (l, updated) = apply_instance_memory out.instances found in
    unless_failed err out (record out { instances = l }, updated)

unfoldable pub scrape_tablespace_allocation :
    QueryAnswer TablespaceAllocationRow → Database → Scraper
unfolding collect_rows apply_tablespace_allocation
scrape_tablespace_allocation q d out =
    let (found, err) = collect_rows q d in
    let (l, updated) = apply_tablespace_allocation out.tablespaces found in
    unless_failed err out (record out { tablespaces = l }, updated)

-- scrapeOperationalCounterRows, whose closure appends a sample for each row with its increment.
module _ {B : Type 0} (kind : String) (sample_of : OperationalCounterRow → Delta → B) where
  abbrev pub counter_key_of : Database → OperationalCounterRow → OperationalCounterKey
  counter_key_of d r = record {
    database = d.name;
    kind = kind;
    inst_id = r.inst_id;
    con_id = r.con_id;
    name = r.name;
  }

  unfoldable pub append_counter :
      Database
      → Time
      → OperationalCounterRow
      → List B × Counters × ℕ
      → (List B × Counters × ℕ) × Option Error
  unfolding operational_delta
  append_counter d collected r (out, counters, n) =
      let (counters', delta) = operational_delta (counter_key_of d r) collected r.value counters in
      ((out ++ (sample_of r delta ∷ []), counters', suc n), none)

  unfoldable pub scrape_operational_counter_rows :
      QueryAnswer OperationalCounterRow
      → Database
      → Time
      → List B × Counters
      → (List B × Counters × ℕ) × Option Error
  unfolding query_operational_rows append_counter
  scrape_operational_counter_rows q d collected (out, counters) =
      query_operational_rows (append_counter d collected) q d (out, counters, 0)

unfoldable pub scrape_system_counters :
    QueryAnswer OperationalCounterRow
    → Database
    → Time
    → OperationalSamples × Counters
    → (OperationalSamples × Counters) × ℕ × Option Error
unfolding scrape_operational_counter_rows
scrape_system_counters q d collected (out, counters) =
    let ((l, counters', n), err) =
      scrape_operational_counter_rows "system" (system_counter_sample collected d.name) q d
        collected (out.system_counters, counters) in
    ((record out { system_counters = l }, counters'), n, err)

-- Another query for the same kind of counters.
abbrev pub scrape_cpu_and_io_counters :
    QueryAnswer OperationalCounterRow
    → Database
    → Time
    → OperationalSamples × Counters
    → (OperationalSamples × Counters) × ℕ × Option Error
scrape_cpu_and_io_counters q d collected g = scrape_system_counters q d collected g

unfoldable pub scrape_wait_classes :
    QueryAnswer OperationalCounterRow
    → Database
    → Time
    → OperationalSamples × Counters
    → (OperationalSamples × Counters) × ℕ × Option Error
unfolding scrape_operational_counter_rows
scrape_wait_classes q d collected (out, counters) =
    let ((l, counters', n), err) =
      scrape_operational_counter_rows "wait" (wait_class_sample collected d.name) q d collected
        (out.wait_classes, counters) in
    ((record out { wait_classes = l }, counters'), n, err)
