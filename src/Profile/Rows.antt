-- ===== src/Profile/Rows.antt =====
-- The rows that the queries of collector/performance.go deliver, and the samples that are made of them.
-- A `sql.NullInt64`, `sql.NullString` or `sql.NullTime` is an option, as int64Ptr, stringPtr and timePtr
-- turn it into one.
use harry_performance_scrape.Prelude.{Option, none, String, or_else}
use harry_performance_scrape.Prelude.Int.{ℤ}
use harry_performance_scrape.Clock.{Time}
use harry_performance_scrape.Samples.Performance.{
  SqlSample, SqlPlanKey, SqlPlanOperation, SessionSample, BlockingSessionSample,
}

pub record SqlRow : Type 0 where
  pub inst_id : ℤ
  pub sql_id : String
  pub child_number : Option ℤ
  pub plan_hash_value : Option ℤ
  pub parsing_schema_name : Option String
  pub module_name : Option String
  pub executions : Option ℤ
  pub elapsed_time_micro : Option ℤ
  pub cpu_time_micro : Option ℤ
  pub user_io_wait_micro : Option ℤ
  pub application_wait_micro : Option ℤ
  pub concurrency_wait_micro : Option ℤ
  pub cluster_wait_micro : Option ℤ
  pub buffer_gets : Option ℤ
  pub disk_reads : Option ℤ
  pub direct_writes : Option ℤ
  pub rows_processed : Option ℤ
  pub fetches : Option ℤ
  pub loads : Option ℤ
  pub invalidations : Option ℤ
  pub parse_calls : Option ℤ
  pub last_active_time : Option Time

unfoldable pub sql_sample : Time → String → SqlRow → SqlSample
sql_sample collected database row = record {
  collected_at = collected;
  database = database;
  inst_id = row.inst_id;
  sql_id = row.sql_id;
  child_number = row.child_number;
  plan_hash_value = row.plan_hash_value;
  parsing_schema_name = row.parsing_schema_name;
  module_name = row.module_name;
  executions = row.executions;
  elapsed_time_micro = row.elapsed_time_micro;
  cpu_time_micro = row.cpu_time_micro;
  user_io_wait_micro = row.user_io_wait_micro;
  application_wait_micro = row.application_wait_micro;
  concurrency_wait_micro = row.concurrency_wait_micro;
  cluster_wait_micro = row.cluster_wait_micro;
  buffer_gets = row.buffer_gets;
  disk_reads = row.disk_reads;
  direct_writes = row.direct_writes;
  rows_processed = row.rows_processed;
  fetches = row.fetches;
  loads = row.loads;
  invalidations = row.invalidations;
  parse_calls = row.parse_calls;
  last_active_time = row.last_active_time;
  sql_full_text = none;
}

pub record SqlDetailRow : Type 0 where
  pub inst_id : ℤ
  pub sql_id : String
  pub child_number : Option ℤ
  pub plan_hash_value : Option ℤ
  pub parsing_schema_name : Option String
  pub module_name : Option String
  pub sql_full_text : Option String

unfoldable pub sql_detail : Time → String → SqlDetailRow → SqlSample
sql_detail collected database row = record {
  collected_at = collected;
  database = database;
  inst_id = row.inst_id;
  sql_id = row.sql_id;
  child_number = row.child_number;
  plan_hash_value = row.plan_hash_value;
  parsing_schema_name = row.parsing_schema_name;
  module_name = row.module_name;
  executions = none;
  elapsed_time_micro = none;
  cpu_time_micro = none;
  user_io_wait_micro = none;
  application_wait_micro = none;
  concurrency_wait_micro = none;
  cluster_wait_micro = none;
  buffer_gets = none;
  disk_reads = none;
  direct_writes = none;
  rows_processed = none;
  fetches = none;
  loads = none;
  invalidations = none;
  parse_calls = none;
  last_active_time = none;
  sql_full_text = row.sql_full_text;
}

pub record SessionRow : Type 0 where
  pub inst_id : ℤ
  pub sid : ℤ
  pub serial_number : Option ℤ
  pub username : Option String
  pub status : Option String
  pub sql_id : Option String
  pub sql_child_number : Option ℤ
  pub prev_sql_id : Option String
  pub event : Option String
  pub wait_class : Option String
  pub state : Option String
  pub seconds_in_wait : Option ℤ
  pub blocking_instance : Option ℤ
  pub blocking_session : Option ℤ
  pub machine : Option String
  pub program : Option String
  pub module_name : Option String
  pub action : Option String
  pub service_name : Option String
  pub logon_time : Option Time

unfoldable pub session_sample : Time → String → SessionRow → SessionSample
session_sample collected database row = record {
  collected_at = collected;
  database = database;
  inst_id = row.inst_id;
  sid = row.sid;
  serial_number = row.serial_number;
  username = row.username;
  status = row.status;
  sql_id = row.sql_id;
  sql_child_number = row.sql_child_number;
  prev_sql_id = row.prev_sql_id;
  event = row.event;
  wait_class = row.wait_class;
  state = row.state;
  seconds_in_wait = row.seconds_in_wait;
  blocking_instance = row.blocking_instance;
  blocking_session = row.blocking_session;
  machine = row.machine;
  program = row.program;
  module_name = row.module_name;
  action = row.action;
  service_name = row.service_name;
  logon_time = row.logon_time;
}

pub record BlockingSessionRow : Type 0 where
  pub inst_id : ℤ
  pub sid : ℤ
  pub serial_number : Option ℤ
  pub username : Option String
  pub sql_id : Option String
  pub event : Option String
  pub wait_class : Option String
  pub blocking_instance : Option ℤ
  pub blocking_session : Option ℤ
  pub blocking_username : Option String
  pub blocking_sql_id : Option String
  pub blocking_event : Option String

unfoldable pub blocking_session_sample : Time → String → BlockingSessionRow → BlockingSessionSample
blocking_session_sample collected database row = record {
  collected_at = collected;
  database = database;
  inst_id = row.inst_id;
  sid = row.sid;
  serial_number = row.serial_number;
  username = row.username;
  sql_id = row.sql_id;
  event = row.event;
  wait_class = row.wait_class;
  blocking_instance = row.blocking_instance;
  blocking_session = row.blocking_session;
  blocking_username = row.blocking_username;
  blocking_sql_id = row.blocking_sql_id;
  blocking_event = row.blocking_event;
}

pub record SqlPlanRow : Type 0 where
  pub sql_plan_key : SqlPlanKey
  pub plan_line_id : ℤ
  pub parent_id : Option ℤ
  pub depth : Option ℤ
  pub position : Option ℤ
  pub operation : Option String
  pub options : Option String
  pub object_owner : Option String
  pub object_name : Option String
  pub object_type : Option String
  pub optimizer : Option String
  pub cost : Option ℤ
  pub cardinality : Option ℤ
  pub bytes : Option ℤ
  pub cpu_cost : Option ℤ
  pub io_cost : Option ℤ
  pub temp_space : Option ℤ
  pub partition_start : Option String
  pub partition_stop : Option String
  pub access_predicates : Option String
  pub filter_predicates : Option String

unfoldable pub sql_plan_operation : Time → String → SqlPlanRow → SqlPlanOperation
sql_plan_operation collected database row = record {
  collected_at = collected;
  database = database;
  sql_plan_key = row.sql_plan_key;
  plan_line_id = row.plan_line_id;
  parent_id = row.parent_id;
  depth = row.depth;
  position = row.position;
  operation = or_else row.operation "";
  options = row.options;
  object_owner = row.object_owner;
  object_name = row.object_name;
  object_type = row.object_type;
  optimizer = row.optimizer;
  cost = row.cost;
  cardinality = row.cardinality;
  bytes = row.bytes;
  cpu_cost = row.cpu_cost;
  io_cost = row.io_cost;
  temp_space = row.temp_space;
  partition_start = row.partition_start;
  partition_stop = row.partition_stop;
  access_predicates = row.access_predicates;
  filter_predicates = row.filter_predicates;
}
