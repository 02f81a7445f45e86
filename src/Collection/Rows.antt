-- ===== src/Collection/Rows.antt =====
-- The rows that the queries of collector/operational.go and collector/dataguard.go deliver, and the
-- samples that are made of them. A `sql.NullInt64` or `sql.NullString` is an option, as int64Ptr and
-- stringPtr turn it into one.
use harry_performance_scrape.Prelude.{Option, none, String}
use harry_performance_scrape.Prelude.Int.{ℤ, pos, int_eq}
use harry_performance_scrape.Prelude.{◌==◌}
use harry_performance_scrape.Clock.{Time}
use harry_performance_scrape.Samples.Operational.{
  Float64, DatabaseStatusSample, InstanceSample, ResourceLimitSample, TablespaceSample,
  AsmDiskgroupSample, SystemCounterSample, WaitClassSample, SystemMetricSample,
  DataGuardDestinationSample, DataGuardProcessSample,
}
use harry_performance_scrape.Counters.{Delta}

pub record DatabaseStatusRow : Type 0 where
  pub inst_id : ℤ
  pub instance_name : String
  pub instance_status : String
  pub database_status : String
  pub startup_time : Time
  pub open_mode : String
  pub database_role : String
  pub cdb : String
  pub con_id : ℤ
  pub con_name : String
  pub platform_name : String

unfoldable pub database_status_sample : Time → String → DatabaseStatusRow → DatabaseStatusSample
database_status_sample collected database row = record {
  collected_at = collected;
  database = database;
  inst_id = row.inst_id;
  instance_name = row.instance_name;
  instance_status = row.instance_status;
  database_status = row.database_status;
  startup_time = row.startup_time;
  open_mode = row.open_mode;
  database_role = row.database_role;
  cdb = row.cdb;
  con_id = row.con_id;
  con_name = row.con_name;
  platform_name = row.platform_name;
  dbid = none;
  db_unique_name = none;
  database_product = none;
  database_edition = none;
  database_version = none;
  database_version_full = none;
  protection_mode = none;
  protection_level = none;
}

pub record InstanceRow : Type 0 where
  pub inst_id : ℤ
  pub user_sessions : ℤ
  pub active_user_sessions : ℤ
  pub background_sessions : ℤ
  pub process_count : ℤ
  pub cpu_count : Option ℤ
  pub sga_max_bytes : Option ℤ
  pub pga_aggregate_limit : Option ℤ

unfoldable pub instance_sample : Time → String → InstanceRow → InstanceSample
instance_sample collected database row = record {
  collected_at = collected;
  database = database;
  inst_id = row.inst_id;
  user_sessions = row.user_sessions;
  active_user_sessions = row.active_user_sessions;
  background_sessions = row.background_sessions;
  process_count = row.process_count;
  cpu_count = row.cpu_count;
  sga_max_bytes = row.sga_max_bytes;
  pga_aggregate_limit = row.pga_aggregate_limit;
  sga_allocated_bytes = none;
  pga_allocated_bytes = none;
  pga_max_allocated_bytes = none;
}

pub record TablespaceRow : Type 0 where
  pub tablespace : String
  pub contents : String
  pub used_bytes : ℤ
  pub free_bytes : ℤ
  pub max_bytes : ℤ
  pub used_percent : Float64

unfoldable pub tablespace_sample : Time → String → TablespaceRow → TablespaceSample
tablespace_sample collected database row = record {
  collected_at = collected;
  database = database;
  tablespace = row.tablespace;
  contents = row.contents;
  used_bytes = row.used_bytes;
  free_bytes = row.free_bytes;
  max_bytes = row.max_bytes;
  used_percent = row.used_percent;
  allocated_bytes = none;
}

pub record ResourceLimitRow : Type 0 where
  pub inst_id : ℤ
  pub resource_name : String
  pub current_value : ℤ
  pub max_value : ℤ
  pub initial_limit : Option ℤ
  pub limit_value : Option ℤ
  pub limit_unlimited : ℤ

unfoldable pub resource_limit_sample : Time → String → ResourceLimitRow → ResourceLimitSample
resource_limit_sample collected database row = record {
  collected_at = collected;
  database = database;
  inst_id = row.inst_id;
  resource_name = row.resource_name;
  current_value = row.current_value;
  max_value = row.max_value;
  initial_limit = row.initial_limit;
  limit_value = row.limit_value;
  limit_unlimited = row.limit_unlimited == pos 1;
}

pub record AsmDiskgroupRow : Type 0 where
  pub inst_id : ℤ
  pub name : String
  pub total_bytes : ℤ
  pub free_bytes : ℤ
  pub usable_bytes : Option ℤ

unfoldable pub asm_diskgroup_sample : Time → String → AsmDiskgroupRow → AsmDiskgroupSample
asm_diskgroup_sample collected database row = record {
  collected_at = collected;
  database = database;
  inst_id = row.inst_id;
  name = row.name;
  total_bytes = row.total_bytes;
  free_bytes = row.free_bytes;
  usable_bytes = row.usable_bytes;
}

pub record SystemMetricRow : Type 0 where
  pub inst_id : ℤ
  pub con_id : ℤ
  pub metric_name : String
  pub value : Float64
  pub unit : Option String

unfoldable pub system_metric_sample : Time → String → SystemMetricRow → SystemMetricSample
system_metric_sample collected database row = record {
  collected_at = collected;
  database = database;
  inst_id = row.inst_id;
  con_id = row.con_id;
  metric_name = row.metric_name;
  value = row.value;
  unit = row.unit;
}

pub record DataGuardDestinationRow : Type 0 where
  pub inst_id : ℤ
  pub dest_id : ℤ
  pub destination_name : Option String
  pub target : Option String
  pub destination : Option String
  pub status : Option String
  pub transmit_mode : Option String
  pub affirm : Option String
  pub valid_now : Option String
  pub db_unique_name : Option String
  pub destination_type : Option String
  pub database_mode : Option String
  pub recovery_mode : Option String
  pub protection_mode : Option String
  pub synchronized : Option String
  pub synchronization_status : Option String
  pub gap_status : Option String
  pub archived_thread : Option ℤ
  pub archived_sequence : Option ℤ
  pub applied_thread : Option ℤ
  pub applied_sequence : Option ℤ
  pub applied_scn : Option ℤ
  pub error : Option String

unfoldable pub data_guard_destination_sample :
    Time → String → DataGuardDestinationRow → DataGuardDestinationSample
data_guard_destination_sample collected database row = record {
  collected_at = collected;
  database = database;
  inst_id = row.inst_id;
  dest_id = row.dest_id;
  destination_name = row.destination_name;
  target = row.target;
  destination = row.destination;
  status = row.status;
  transmit_mode = row.transmit_mode;
  affirm = row.affirm;
  valid_now = row.valid_now;
  db_unique_name = row.db_unique_name;
  destination_type = row.destination_type;
  database_mode = row.database_mode;
  recovery_mode = row.recovery_mode;
  protection_mode = row.protection_mode;
  synchronized = row.synchronized;
  synchronization_status = row.synchronization_status;
  gap_status = row.gap_status;
  archived_thread = row.archived_thread;
  archived_sequence = row.archived_sequence;
  applied_thread = row.applied_thread;
  applied_sequence = row.applied_sequence;
  applied_scn = row.applied_scn;
  error = row.error;
}

pub record DataGuardProcessRow : Type 0 where
  pub inst_id : ℤ
  pub apply_processes : ℤ
  pub transport_processes : ℤ
  pub apply_status : Option String
  pub thread_number : Option ℤ
  pub sequence_number : Option ℤ

unfoldable pub data_guard_process_sample :
    Time → String → String → DataGuardProcessRow → DataGuardProcessSample
data_guard_process_sample collected database role row = record {
  collected_at = collected;
  database = database;
  inst_id = row.inst_id;
  database_role = role;
  apply_processes = row.apply_processes;
  transport_processes = row.transport_processes;
  apply_status = row.apply_status;
  thread_number = row.thread_number;
  sequence_number = row.sequence_number;
}

pub record OperationalCounterRow : Type 0 where
  pub inst_id : ℤ
  pub con_id : ℤ
  pub name : String
  pub value : ℤ

-- The samples that the counters' closures append.
unfoldable pub system_counter_sample :
    Time → String → OperationalCounterRow → Delta → SystemCounterSample
system_counter_sample collected database row d = record {
  collected_at = collected;
  database = database;
  inst_id = row.inst_id;
  con_id = row.con_id;
  stat_name = row.name;
  cumulative_value = row.value;
  delta_value = d.delta;
  interval = d.interval;
  counter_reset = d.reset;
}

unfoldable pub wait_class_sample : Time → String → OperationalCounterRow → Delta → WaitClassSample
wait_class_sample collected database row d = record {
  collected_at = collected;
  database = database;
  inst_id = row.inst_id;
  con_id = row.con_id;
  wait_class = row.name;
  cumulative_wait_micro = row.value;
  delta_wait_micro = d.delta;
  interval = d.interval;
  counter_reset = d.reset;
}
