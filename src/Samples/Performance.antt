-- ===== src/Samples/Performance.antt =====
-- The performance samples of collector/samples.go, and how batches of them are put together
-- (appendPerformanceSamples of collector/collector.go).
use harry_performance_scrape.Prelude.{
  ℕ, ◌+◌, ◌≡◌, Option, String, List, [], ◌++◌, arith, length, length-append,
}
use harry_performance_scrape.Prelude.Int.{ℤ}
use harry_performance_scrape.Clock.{Time}

pub record SqlSample : Type 0 where
  pub collected_at : Time
  pub database : String
  pub inst_id : ℤ
  pub sql_id : String
  pub child_number : Option ℤ
  pub plan_hash_value : Option ℤ
  pub parsing_schema_name : Option String
  pub module_name : Option String
  pub executions : Option ℤ
  pub elapsed_time_micro : Option ℤ
  pub cpu_time_micro : Option ℤ
  pub user_io_wait_micro : Option ℤ
  pub application_wait_micro : Option ℤ
  pub concurrency_wait_micro : Option ℤ
  pub cluster_wait_micro : Option ℤ
  pub buffer_gets : Option ℤ
  pub disk_reads : Option ℤ
  pub direct_writes : Option ℤ
  pub rows_processed : Option ℤ
  pub fetches : Option ℤ
  pub loads : Option ℤ
  pub invalidations : Option ℤ
  pub parse_calls : Option ℤ
  pub last_active_time : Option Time
  pub sql_full_text : Option String

pub record SqlTextSample : Type 0 where
  pub collected_at : Time
  pub database : String
  pub sql_id : String
  pub sql_full_text : String

pub record SqlPlanKey : Type 0 where
  pub inst_id : ℤ
  pub sql_id : String
  pub child_number : ℤ
  pub plan_hash_value : ℤ

pub record SqlPlanOperation : Type 0 where
  pub collected_at : Time
  pub database : String
  pub sql_plan_key : SqlPlanKey
  pub plan_line_id : ℤ
  pub parent_id : Option ℤ
  pub depth : Option ℤ
  pub position : Option ℤ
  pub operation : String
  pub options : Option String
  pub object_owner : Option String
  pub object_name : Option String
  pub object_type : Option String
  pub optimizer : Option String
  pub cost : Option ℤ
  pub cardinality : Option ℤ
  pub bytes : Option ℤ
  pub cpu_cost : Option ℤ
  pub io_cost : Option ℤ
  pub temp_space : Option ℤ
  pub partition_start : Option String
  pub partition_stop : Option String
  pub access_predicates : Option String
  pub filter_predicates : Option String

pub record SessionSample : Type 0 where
  pub collected_at : Time
  pub database : String
  pub inst_id : ℤ
  pub sid : ℤ
  pub serial_number : Option ℤ
  pub username : Option String
  pub status : Option String
  pub sql_id : Option String
  pub sql_child_number : Option ℤ
  pub prev_sql_id : Option String
  pub event : Option String
  pub wait_class : Option String
  pub state : Option String
  pub seconds_in_wait : Option ℤ
  pub blocking_instance : Option ℤ
  pub blocking_session : Option ℤ
  pub machine : Option String
  pub program : Option String
  pub module_name : Option String
  pub action : Option String
  pub service_name : Option String
  pub logon_time : Option Time

pub record BlockingSessionSample : Type 0 where
  pub collected_at : Time
  pub database : String
  pub inst_id : ℤ
  pub sid : ℤ
  pub serial_number : Option ℤ
  pub username : Option String
  pub sql_id : Option String
  pub event : Option String
  pub wait_class : Option String
  pub blocking_instance : Option ℤ
  pub blocking_session : Option ℤ
  pub blocking_username : Option String
  pub blocking_sql_id : Option String
  pub blocking_event : Option String

pub record DatabaseActivitySample : Type 0 where
  pub collected_at : Time
  pub database : String
  pub sample_id : ℤ
  pub sample_time : Time
  pub inst_id : ℤ
  pub session_id : ℤ
  pub session_serial_number : Option ℤ
  pub session_type : Option String
  pub user_id : Option ℤ
  pub sql_id : Option String
  pub sql_child_number : Option ℤ
  pub sql_exec_id : Option ℤ
  pub sql_exec_start : Option Time
  pub top_level_sql_id : Option String
  pub session_state : Option String
  pub event : Option String
  pub wait_class : Option String
  pub wait_time_micro : Option ℤ
  pub time_waited_micro : Option ℤ
  pub blocking_session : Option ℤ
  pub blocking_session_serial : Option ℤ
  pub blocking_inst_id : Option ℤ
  pub current_object_id : Option ℤ
  pub current_file_number : Option ℤ
  pub current_block_number : Option ℤ
  pub program : Option String
  pub module_name : Option String
  pub action : Option String
  pub machine : Option String
  pub pga_allocated : Option ℤ
  pub temp_space_allocated : Option ℤ
  pub con_id : Option ℤ
  pub sample_source : String
  pub sample_duration_micro : ℤ
  pub sql_plan_hash_value : Option ℤ
  pub sql_full_plan_hash_value : Option ℤ
  pub sql_plan_line_id : Option ℤ
  pub service_hash : Option ℤ
  pub service_name : Option String
  pub client_identifier : Option String

pub record PerformanceSamples : Type 0 where
  pub sql : List SqlSample
  pub sql_details : List SqlSample
  pub sql_texts : List SqlTextSample
  pub sql_plans : List SqlPlanOperation
  pub sessions : List SessionSample
  pub blocking_sessions : List BlockingSessionSample
  pub database_activity : List DatabaseActivitySample

-- Count
unfoldable pub count : PerformanceSamples → ℕ
count s =
    length s.sql
    + length s.sql_details
    + length s.sql_texts
    + length s.sql_plans
    + length s.sessions
    + length s.blocking_sessions
    + length s.database_activity

-- appendPerformanceSamples
unfoldable pub append : PerformanceSamples → PerformanceSamples → PerformanceSamples
append a b = record {
  sql = a.sql ++ b.sql;
  sql_details = a.sql_details ++ b.sql_details;
  sql_texts = a.sql_texts ++ b.sql_texts;
  sql_plans = a.sql_plans ++ b.sql_plans;
  sessions = a.sessions ++ b.sessions;
  blocking_sessions = a.blocking_sessions ++ b.blocking_sessions;
  database_activity = a.database_activity ++ b.database_activity;
}

unfoldable pub empty : PerformanceSamples
empty = record {
  sql = [];
  sql_details = [];
  sql_texts = [];
  sql_plans = [];
  sessions = [];
  blocking_sessions = [];
  database_activity = [];
}

-- Appending one batch to another adds up their counts.
pub count-append : (a b : PerformanceSamples) → count (append a b) ≡ count a + count b
unfolding count append
count-append a b = omega (
  arith,
  length-append {0} a.sql b.sql,
  length-append {0} a.sql_details b.sql_details,
  length-append {0} a.sql_texts b.sql_texts,
  length-append {0} a.sql_plans b.sql_plans,
  length-append {0} a.sessions b.sessions,
  length-append {0} a.blocking_sessions b.blocking_sessions,
  length-append {0} a.database_activity b.database_activity,
)
