-- ===== src/Activity/Rows.antt =====
-- The rows of the two queries of collector/activity.go, and the samples that are made of them.
use harry_performance_scrape.Prelude.{◌*◌, Option, none, some, String, if◌then◌else◌}
use harry_performance_scrape.Prelude.Int.{ℤ, pos, ltb_ℤ, quot64, sub_ℕ, wrap64}
use harry_performance_scrape.Clock.{Time, Duration, second}
use harry_performance_scrape.Samples.Performance.{DatabaseActivitySample}

-- `UnixNano`, from the start of 1970.
abbrev pub unix_nano : Time → ℤ
unix_nano t = wrap64 (sub_ℕ t (62135596800 * second))

-- `Microseconds`
abbrev pub microseconds : Duration → ℤ
microseconds d = quot64 d (pos 1000)

-- Where the row has no duration above zero, the interval stands for it.
unfoldable pub nullable_duration : Option ℤ → Duration → ℤ
nullable_duration none fallback = microseconds fallback
nullable_duration (some v) fallback = if ltb_ℤ (pos 0) v then v else microseconds fallback

pub record SessionActivityRow : Type 0 where
  pub inst_id : ℤ
  pub session_id : ℤ
  pub serial_number : Option ℤ
  pub user_id : Option ℤ
  pub sql_id : Option String
  pub sql_child_number : Option ℤ
  pub sql_exec_id : Option ℤ
  pub sql_exec_start : Option Time
  pub session_state : Option String
  pub event : Option String
  pub wait_class : Option String
  pub wait_time : Option ℤ
  pub time_waited : Option ℤ
  pub blocking_session : Option ℤ
  pub blocking_inst_id : Option ℤ
  pub object_id : Option ℤ
  pub file_number : Option ℤ
  pub block_number : Option ℤ
  pub program : Option String
  pub module_name : Option String
  pub action : Option String
  pub machine : Option String
  pub con_id : Option ℤ
  pub service_name : Option String
  pub client_id : Option String

unfoldable pub session_activity_sample :
    Duration → Time → String → SessionActivityRow → DatabaseActivitySample
session_activity_sample interval sampled database row = record {
  collected_at = sampled;
  database = database;
  sample_id = unix_nano sampled;
  sample_time = sampled;
  inst_id = row.inst_id;
  session_id = row.session_id;
  session_serial_number = row.serial_number;
  session_type = some "FOREGROUND";
  user_id = row.user_id;
  sql_id = row.sql_id;
  sql_child_number = row.sql_child_number;
  sql_exec_id = row.sql_exec_id;
  sql_exec_start = row.sql_exec_start;
  top_level_sql_id = none;
  session_state = row.session_state;
  event = row.event;
  wait_class = row.wait_class;
  wait_time_micro = row.wait_time;
  time_waited_micro = row.time_waited;
  blocking_session = row.blocking_session;
  blocking_session_serial = none;
  blocking_inst_id = row.blocking_inst_id;
  current_object_id = row.object_id;
  current_file_number = row.file_number;
  current_block_number = row.block_number;
  program = row.program;
  module_name = row.module_name;
  action = row.action;
  machine = row.machine;
  pga_allocated = none;
  temp_space_allocated = none;
  con_id = row.con_id;
  sample_source = "SESSION";
  sample_duration_micro = microseconds interval;
  sql_plan_hash_value = none;
  sql_full_plan_hash_value = none;
  sql_plan_line_id = none;
  service_hash = none;
  service_name = row.service_name;
  client_identifier = row.client_id;
}

pub record AshRow : Type 0 where
  pub sample_id : ℤ
  pub sample_time : Time
  pub inst_id : ℤ
  pub session_id : ℤ
  pub serial_number : Option ℤ
  pub session_type : Option String
  pub user_id : Option ℤ
  pub sql_id : Option String
  pub sql_child_number : Option ℤ
  pub sql_exec_id : Option ℤ
  pub sql_exec_start : Option Time
  pub top_sql_id : Option String
  pub session_state : Option String
  pub event : Option String
  pub wait_class : Option String
  pub wait_time : Option ℤ
  pub time_waited : Option ℤ
  pub blocking_session : Option ℤ
  pub blocking_serial : Option ℤ
  pub blocking_inst_id : Option ℤ
  pub object_id : Option ℤ
  pub file_number : Option ℤ
  pub block_number : Option ℤ
  pub program : Option String
  pub module_name : Option String
  pub action : Option String
  pub machine : Option String
  pub pga : Option ℤ
  pub temp : Option ℤ
  pub con_id : Option ℤ
  pub usecs : Option ℤ
  pub plan_hash : Option ℤ
  pub full_plan_hash : Option ℤ
  pub plan_line_id : Option ℤ
  pub service_hash : Option ℤ
  pub client_id : Option String

unfoldable pub ash_sample : Duration → Time → String → AshRow → DatabaseActivitySample
unfolding nullable_duration
ash_sample interval sampled database row = record {
  collected_at = sampled;
  database = database;
  sample_id = row.sample_id;
  sample_time = row.sample_time;
  inst_id = row.inst_id;
  session_id = row.session_id;
  session_serial_number = row.serial_number;
  session_type = row.session_type;
  user_id = row.user_id;
  sql_id = row.sql_id;
  sql_child_number = row.sql_child_number;
  sql_exec_id = row.sql_exec_id;
  sql_exec_start = row.sql_exec_start;
  top_level_sql_id = row.top_sql_id;
  session_state = row.session_state;
  event = row.event;
  wait_class = row.wait_class;
  wait_time_micro = row.wait_time;
  time_waited_micro = row.time_waited;
  blocking_session = row.blocking_session;
  blocking_session_serial = row.blocking_serial;
  blocking_inst_id = row.blocking_inst_id;
  current_object_id = row.object_id;
  current_file_number = row.file_number;
  current_block_number = row.block_number;
  program = row.program;
  module_name = row.module_name;
  action = row.action;
  machine = row.machine;
  pga_allocated = row.pga;
  temp_space_allocated = row.temp;
  con_id = row.con_id;
  sample_source = "ASH";
  sample_duration_micro = nullable_duration row.usecs interval;
  sql_plan_hash_value = row.plan_hash;
  sql_full_plan_hash_value = row.full_plan_hash;
  sql_plan_line_id = row.plan_line_id;
  service_hash = row.service_hash;
  service_name = none;
  client_identifier = row.client_id;
}
