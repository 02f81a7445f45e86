-- ===== src/Collection.antt =====
-- ScrapeOperationalSamples of collector/operational.go: thirteen queries of one database, one after the
-- other, each with its own deadline and its own status. What the driver answers, the time that each
-- query takes and what Go's packages give on float64 are arguments. The counters of other databases,
-- which other goroutines may change in between, have other keys and are left out.
pub mod Rows
pub mod Query
pub mod Merges
pub mod Completed
pub mod Applied
pub mod Interval
pub mod Printed
pub mod Values
pub mod DataGuard
pub mod Scrapers
pub mod Reports
pub mod Totals
pub mod Growth
pub mod Counted
use harry_performance_scrape.Prelude.{ℕ, Option, none, some, List, [], ◌∷◌, ◌++◌, String}
use Prim.Native.String.{◌++◌ as string_append}
use harry_performance_scrape.Clock.{Time, Duration}
use harry_performance_scrape.Texts.{text}
use harry_performance_scrape.Errors.{Error, wrap_error, join_errors}
use harry_performance_scrape.Status.{ScrapeStatusSample, new_scrape_status}
use harry_performance_scrape.Counters.{Counters}
use harry_performance_scrape.Database.{Database}
use harry_performance_scrape.Samples.Operational.{OperationalSamples, empty, count}
use Rows.{
  DatabaseStatusRow, InstanceRow, ResourceLimitRow, TablespaceRow, AsmDiskgroupRow, SystemMetricRow,
  OperationalCounterRow,
}
use Query.{QueryAnswer}
use Merges.{DatabaseIdentityRow, InstanceMemoryRow, TablespaceAllocationRow}
use DataGuard.{Formats, DataGuardAnswers, scrape_data_guard}
use Scrapers.{
  Scraper, scrape_database_status, scrape_instances, scrape_resource_limits, scrape_tablespaces,
  scrape_asm_diskgroups, scrape_system_metrics, scrape_database_identity, scrape_instance_memory,
  scrape_tablespace_allocation, scrape_system_counters, scrape_cpu_and_io_counters,
  scrape_wait_classes,
}

-- What the driver answers to each query.
pub record OperationalAnswers : Type 0 where
  pub status : QueryAnswer DatabaseStatusRow
  pub identity : QueryAnswer DatabaseIdentityRow
  pub instances : QueryAnswer InstanceRow
  pub memory : QueryAnswer InstanceMemoryRow
  pub limits : QueryAnswer ResourceLimitRow
  pub tablespaces : QueryAnswer TablespaceRow
  pub allocation : QueryAnswer TablespaceAllocationRow
  pub diskgroups : QueryAnswer AsmDiskgroupRow
  pub system : QueryAnswer OperationalCounterRow
  pub cpu_io : QueryAnswer OperationalCounterRow
  pub waits : QueryAnswer OperationalCounterRow
  pub metrics : QueryAnswer SystemMetricRow
  pub data_guard : DataGuardAnswers

-- The samples so far, and the counters of the scraper.
abbrev pub Gathered : Type 0
Gathered = OperationalSamples × Counters

pub record Collection : Type 0 where
  pub name : String
  pub collect : Gathered → Gathered × ℕ × Option Error

-- A query that leaves the counters alone.
abbrev pub plain : String → Scraper → Collection
plain name scrape = record {
  name = name;
  collect = λ g. let (out, n, err) = scrape g.0 in ((out, g.1), n, err);
}

unfoldable pub collections : Formats → OperationalAnswers → Database → Time → List Collection
unfolding scrape_database_status scrape_instances scrape_resource_limits scrape_tablespaces
    scrape_asm_diskgroups scrape_system_metrics scrape_database_identity scrape_instance_memory
    scrape_tablespace_allocation scrape_system_counters scrape_wait_classes scrape_data_guard
collections f a d collected =
    plain "database_status" (scrape_database_status a.status d collected)
    ∷ plain "database_identity" (scrape_database_identity a.identity d)
    ∷ plain "instance" (scrape_instances a.instances d collected)
    ∷ plain "instance_memory" (scrape_instance_memory a.memory d)
    ∷ plain "resource_limits" (scrape_resource_limits a.limits d collected)
    ∷ plain "tablespaces" (scrape_tablespaces a.tablespaces d collected)
    ∷ plain "tablespace_allocation" (scrape_tablespace_allocation a.allocation d)
    ∷ plain "asm_diskgroups" (scrape_asm_diskgroups a.diskgroups d collected)
    ∷ record { name = "system_counters"; collect = scrape_system_counters a.system d collected }
    ∷ record { name = "cpu_io_counters"; collect = scrape_cpu_and_io_counters a.cpu_io d collected }
    ∷ record { name = "wait_classes"; collect = scrape_wait_classes a.waits d collected }
    ∷ plain "system_metrics" (scrape_system_metrics a.metrics d collected)
    ∷ plain "dataguard" (scrape_data_guard f a.data_guard d collected)
    ∷ []

-- The variables of the loop.
pub record Progress : Type 0 where
  pub gathered : Gathered
  pub statuses : List ScrapeStatusSample
  pub joined : Option Error

abbrev pub joined_with : String → Option Error → Option Error → Option Error
joined_with name none joined = joined
joined_with name (some e) joined = join_errors joined (some (wrap_error (text name ++ text ": ") e))

-- One round of the loop; `elapsed` is the time that the query takes.
unfoldable pub collect_one :
    Database → Time → (String → Duration) → Collection → Progress → Progress
unfolding new_scrape_status
collect_one d collected elapsed item p =
    let (gathered, n, err) = item.collect p.gathered in
    record {
      gathered = gathered;
      statuses =
          p.statuses
          ++ (new_scrape_status collected d.name (string_append "operational." item.name)
                (elapsed item.name) n err
              ∷ []);
      joined = joined_with item.name err p.joined;
    }

unfoldable pub collect_all :
    Database → Time → (String → Duration) → List Collection → Progress → Progress
unfolding collect_one
collect_all d collected elapsed [] p = p
collect_all d collected elapsed (c ∷ cs) p =
    collect_all d collected elapsed cs (collect_one d collected elapsed c p)

-- The results, with the status of the whole at the end.
unfoldable pub scrape_operational_samples :
    Formats
    → OperationalAnswers
    → (String → Duration)
    → Duration
    → Database
    → Time
    → Counters
    → Progress
unfolding collections collect_all
scrape_operational_samples f a elapsed total d collected counters =
    let p =
      collect_all d collected elapsed (collections f a d collected)
        (record { gathered = (empty, counters); statuses = []; joined = none }) in
    record p {
      statuses =
          p.statuses
          ++ (new_scrape_status collected d.name "operational" total (count p.gathered.0) p.joined
              ∷ []);
    }
