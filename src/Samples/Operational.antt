-- ===== src/Samples/Operational.antt =====
-- The operational samples of collector/samples.go, and how batches of them are put together
-- (appendOperationalSamples of collector/collector.go). A float64 is kept as its 64 bits.
use harry_performance_scrape.Prelude.{
  ℕ, ◌+◌, ◌≡◌, Bool, Option, String, List, [], ◌++◌, arith, length, length-append,
}
use harry_performance_scrape.Prelude.Int.{ℤ}
use harry_performance_scrape.Clock.{Time, Duration}

-- The bits of a float64; the model does no arithmetic on them.
abbrev pub Float64 : Type 0
Float64 = ℕ

pub record DatabaseStatusSample : Type 0 where
  pub collected_at : Time
  pub database : String
  pub inst_id : ℤ
  pub instance_name : String
  pub instance_status : String
  pub database_status : String
  pub startup_time : Time
  pub open_mode : String
  pub database_role : String
  pub cdb : String
  pub con_id : ℤ
  pub con_name : String
  pub platform_name : String
  pub dbid : Option ℤ
  pub db_unique_name : Option String
  pub database_product : Option String
  pub database_edition : Option String
  pub database_version : Option String
  pub database_version_full : Option String
  pub protection_mode : Option String
  pub protection_level : Option String

pub record InstanceSample : Type 0 where
  pub collected_at : Time
  pub database : String
  pub inst_id : ℤ
  pub user_sessions : ℤ
  pub active_user_sessions : ℤ
  pub background_sessions : ℤ
  pub process_count : ℤ
  pub cpu_count : Option ℤ
  pub sga_max_bytes : Option ℤ
  pub pga_aggregate_limit : Option ℤ
  pub sga_allocated_bytes : Option ℤ
  pub pga_allocated_bytes : Option ℤ
  pub pga_max_allocated_bytes : Option ℤ

pub record ResourceLimitSample : Type 0 where
  pub collected_at : Time
  pub database : String
  pub inst_id : ℤ
  pub resource_name : String
  pub current_value : ℤ
  pub max_value : ℤ
  pub initial_limit : Option ℤ
  pub limit_value : Option ℤ
  pub limit_unlimited : Bool

pub record TablespaceSample : Type 0 where
  pub collected_at : Time
  pub database : String
  pub tablespace : String
  pub contents : String
  pub used_bytes : ℤ
  pub free_bytes : ℤ
  pub max_bytes : ℤ
  pub used_percent : Float64
  pub allocated_bytes : Option ℤ

pub record AsmDiskgroupSample : Type 0 where
  pub collected_at : Time
  pub database : String
  pub inst_id : ℤ
  pub name : String
  pub total_bytes : ℤ
  pub free_bytes : ℤ
  pub usable_bytes : Option ℤ

pub record SystemCounterSample : Type 0 where
  pub collected_at : Time
  pub database : String
  pub inst_id : ℤ
  pub con_id : ℤ
  pub stat_name : String
  pub cumulative_value : ℤ
  pub delta_value : Option ℤ
  pub interval : Option Duration
  pub counter_reset : Bool

pub record WaitClassSample : Type 0 where
  pub collected_at : Time
  pub database : String
  pub inst_id : ℤ
  pub con_id : ℤ
  pub wait_class : String
  pub cumulative_wait_micro : ℤ
  pub delta_wait_micro : Option ℤ
  pub interval : Option Duration
  pub counter_reset : Bool

pub record SystemMetricSample : Type 0 where
  pub collected_at : Time
  pub database : String
  pub inst_id : ℤ
  pub con_id : ℤ
  pub metric_name : String
  pub value : Float64
  pub unit : Option String

pub record DataGuardDestinationSample : Type 0 where
  pub collected_at : Time
  pub database : String
  pub inst_id : ℤ
  pub dest_id : ℤ
  pub destination_name : Option String
  pub target : Option String
  pub destination : Option String
  pub status : Option String
  pub transmit_mode : Option String
  pub affirm : Option String
  pub valid_now : Option String
  pub db_unique_name : Option String
  pub destination_type : Option String
  pub database_mode : Option String
  pub recovery_mode : Option String
  pub protection_mode : Option String
  pub synchronized : Option String
  pub synchronization_status : Option String
  pub gap_status : Option String
  pub archived_thread : Option ℤ
  pub archived_sequence : Option ℤ
  pub applied_thread : Option ℤ
  pub applied_sequence : Option ℤ
  pub applied_scn : Option ℤ
  pub error : Option String

pub record DataGuardLagSample : Type 0 where
  pub collected_at : Time
  pub database : String
  pub database_role : String
  pub transport_lag_seconds : Option Float64
  pub apply_lag_seconds : Option Float64
  pub apply_finish_time_seconds : Option Float64
  pub estimated_startup_seconds : Option Float64
  pub time_computed : Option String
  pub datum_time : Option String
  pub datum_age_seconds : Option Float64

pub record DataGuardProcessSample : Type 0 where
  pub collected_at : Time
  pub database : String
  pub inst_id : ℤ
  pub database_role : String
  pub apply_processes : ℤ
  pub transport_processes : ℤ
  pub apply_status : Option String
  pub thread_number : Option ℤ
  pub sequence_number : Option ℤ

pub record OperationalSamples : Type 0 where
  pub database_status : List DatabaseStatusSample
  pub instances : List InstanceSample
  pub resource_limits : List ResourceLimitSample
  pub tablespaces : List TablespaceSample
  pub asm_diskgroups : List AsmDiskgroupSample
  pub system_counters : List SystemCounterSample
  pub wait_classes : List WaitClassSample
  pub system_metrics : List SystemMetricSample
  pub data_guard_destinations : List DataGuardDestinationSample
  pub data_guard_lag : List DataGuardLagSample
  pub data_guard_processes : List DataGuardProcessSample

-- Count
unfoldable pub count : OperationalSamples → ℕ
count s =
    length s.database_status
    + length s.instances
    + length s.resource_limits
    + length s.tablespaces
    + length s.asm_diskgroups
    + length s.system_counters
    + length s.wait_classes
    + length s.system_metrics
    + length s.data_guard_destinations
    + length s.data_guard_lag
    + length s.data_guard_processes

-- appendOperationalSamples
unfoldable pub append : OperationalSamples → OperationalSamples → OperationalSamples
append a b = record {
  database_status = a.database_status ++ b.database_status;
  instances = a.instances ++ b.instances;
  resource_limits = a.resource_limits ++ b.resource_limits;
  tablespaces = a.tablespaces ++ b.tablespaces;
  asm_diskgroups = a.asm_diskgroups ++ b.asm_diskgroups;
  system_counters = a.system_counters ++ b.system_counters;
  wait_classes = a.wait_classes ++ b.wait_classes;
  system_metrics = a.system_metrics ++ b.system_metrics;
  data_guard_destinations = a.data_guard_destinations ++ b.data_guard_destinations;
  data_guard_lag = a.data_guard_lag ++ b.data_guard_lag;
  data_guard_processes = a.data_guard_processes ++ b.data_guard_processes;
}

unfoldable pub empty : OperationalSamples
empty = record {
  database_status = [];
  instances = [];
  resource_limits = [];
  tablespaces = [];
  asm_diskgroups = [];
  system_counters = [];
  wait_classes = [];
  system_metrics = [];
  data_guard_destinations = [];
  data_guard_lag = [];
  data_guard_processes = [];
}

-- Appending one batch to another adds up their counts.
pub count-append : (a b : OperationalSamples) → count (append a b) ≡ count a + count b
unfolding count append
count-append a b = omega (
  arith,
  length-append {0} a.database_status b.database_status,
  length-append {0} a.instances b.instances,
  length-append {0} a.resource_limits b.resource_limits,
  length-append {0} a.tablespaces b.tablespaces,
  length-append {0} a.asm_diskgroups b.asm_diskgroups,
  length-append {0} a.system_counters b.system_counters,
  length-append {0} a.wait_classes b.wait_classes,
  length-append {0} a.system_metrics b.system_metrics,
  length-append {0} a.data_guard_destinations b.data_guard_destinations,
  length-append {0} a.data_guard_lag b.data_guard_lag,
  length-append {0} a.data_guard_processes b.data_guard_processes,
)
