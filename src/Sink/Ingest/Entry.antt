-- ===== src/Sink/Ingest/Entry.antt =====
-- The counts that the sink keeps for a database and a day (repositoryIngestKey, repositoryIngestCounts and
-- its methods in postgresql/postgresql.go), and how each kind of rows is counted.
use harry_performance_scrape.Prelude.{
  ◌↔◌, ◌≡◌, Bool, true, not, ◌&&◌, ◌||◌, String, string_eq, nat_eq, ◌==◌, Comparable, if◌then◌else◌,
  arith, ℕ, eqb,
}
use harry_performance_scrape.Prelude.Int.{ℤ, pos, add64}
use harry_performance_scrape.Clock.{Time, zero_time, is_zero, before, after}

pub record RepositoryIngestKey : Type 0 where
  pub day : Time
  pub database : String

abbrev pub ingest_key_same : RepositoryIngestKey → RepositoryIngestKey → Bool
ingest_key_same a b = a.day == b.day && a.database == b.database

pub ingest_key_iff : (a b : RepositoryIngestKey) → (ingest_key_same a b ≡ true) ↔ (a ≡ b)
ingest_key_iff a b = ground (arith, string_eq.same_iff a.database b.database)

instance abbrev pub ingest_key_eq : Comparable RepositoryIngestKey
ingest_key_eq = record { same = ingest_key_same; same_iff = ingest_key_iff }

pub record RepositoryIngestCounts : Type 0 where
  pub additional_metric_rows : ℤ
  pub sql_sample_rows : ℤ
  pub sql_text_writes : ℤ
  pub sql_cursor_metadata_writes : ℤ
  pub sql_plan_operation_writes : ℤ
  pub session_sample_rows : ℤ
  pub blocking_session_sample_rows : ℤ
  pub database_activity_sample_rows : ℤ
  pub database_status_sample_rows : ℤ
  pub instance_sample_rows : ℤ
  pub resource_limit_sample_rows : ℤ
  pub tablespace_sample_rows : ℤ
  pub asm_diskgroup_sample_rows : ℤ
  pub system_counter_sample_rows : ℤ
  pub wait_class_sample_rows : ℤ
  pub system_metric_sample_rows : ℤ
  pub data_guard_destination_rows : ℤ
  pub data_guard_lag_rows : ℤ
  pub data_guard_process_rows : ℤ
  pub scrape_status_rows : ℤ
  pub first_sample_at : Time
  pub last_sample_at : Time
  pub last_sql_sample_at : Time
  pub last_session_sample_at : Time
  pub last_database_activity_sample_at : Time

-- The entry of a key that a map does not hold.
abbrev pub no_counts : RepositoryIngestCounts
no_counts = record {
  additional_metric_rows = pos 0;
  sql_sample_rows = pos 0;
  sql_text_writes = pos 0;
  sql_cursor_metadata_writes = pos 0;
  sql_plan_operation_writes = pos 0;
  session_sample_rows = pos 0;
  blocking_session_sample_rows = pos 0;
  database_activity_sample_rows = pos 0;
  database_status_sample_rows = pos 0;
  instance_sample_rows = pos 0;
  resource_limit_sample_rows = pos 0;
  tablespace_sample_rows = pos 0;
  asm_diskgroup_sample_rows = pos 0;
  system_counter_sample_rows = pos 0;
  wait_class_sample_rows = pos 0;
  system_metric_sample_rows = pos 0;
  data_guard_destination_rows = pos 0;
  data_guard_lag_rows = pos 0;
  data_guard_process_rows = pos 0;
  scrape_status_rows = pos 0;
  first_sample_at = zero_time;
  last_sample_at = zero_time;
  last_sql_sample_at = zero_time;
  last_session_sample_at = zero_time;
  last_database_activity_sample_at = zero_time;
}

unfoldable pub observe : Time → RepositoryIngestCounts → RepositoryIngestCounts
observe t c = if is_zero t then c else record c {
  first_sample_at =
      if is_zero c.first_sample_at || before t c.first_sample_at then t else c.first_sample_at;
  last_sample_at =
      if is_zero c.last_sample_at || after t c.last_sample_at then t else c.last_sample_at;
}

abbrev pub later : Time → Time → Time
later t u = if after t u then t else u

-- `c.add(o)`
unfoldable pub add : RepositoryIngestCounts → RepositoryIngestCounts → RepositoryIngestCounts
add c o = record {
  additional_metric_rows = add64 c.additional_metric_rows o.additional_metric_rows;
  sql_sample_rows = add64 c.sql_sample_rows o.sql_sample_rows;
  sql_text_writes = add64 c.sql_text_writes o.sql_text_writes;
  sql_cursor_metadata_writes = add64 c.sql_cursor_metadata_writes o.sql_cursor_metadata_writes;
  sql_plan_operation_writes = add64 c.sql_plan_operation_writes o.sql_plan_operation_writes;
  session_sample_rows = add64 c.session_sample_rows o.session_sample_rows;
  blocking_session_sample_rows =
      add64 c.blocking_session_sample_rows o.blocking_session_sample_rows;
  database_activity_sample_rows =
      add64 c.database_activity_sample_rows o.database_activity_sample_rows;
  database_status_sample_rows = add64 c.database_status_sample_rows o.database_status_sample_rows;
  instance_sample_rows = add64 c.instance_sample_rows o.instance_sample_rows;
  resource_limit_sample_rows = add64 c.resource_limit_sample_rows o.resource_limit_sample_rows;
  tablespace_sample_rows = add64 c.tablespace_sample_rows o.tablespace_sample_rows;
  asm_diskgroup_sample_rows = add64 c.asm_diskgroup_sample_rows o.asm_diskgroup_sample_rows;
  system_counter_sample_rows = add64 c.system_counter_sample_rows o.system_counter_sample_rows;
  wait_class_sample_rows = add64 c.wait_class_sample_rows o.wait_class_sample_rows;
  system_metric_sample_rows = add64 c.system_metric_sample_rows o.system_metric_sample_rows;
  data_guard_destination_rows = add64 c.data_guard_destination_rows o.data_guard_destination_rows;
  data_guard_lag_rows = add64 c.data_guard_lag_rows o.data_guard_lag_rows;
  data_guard_process_rows = add64 c.data_guard_process_rows o.data_guard_process_rows;
  scrape_status_rows = add64 c.scrape_status_rows o.scrape_status_rows;
  first_sample_at =
      if is_zero c.first_sample_at
        || (not (is_zero o.first_sample_at) && before o.first_sample_at c.first_sample_at)
      then o.first_sample_at
      else c.first_sample_at;
  last_sample_at = later o.last_sample_at c.last_sample_at;
  last_sql_sample_at = later o.last_sql_sample_at c.last_sql_sample_at;
  last_session_sample_at = later o.last_session_sample_at c.last_session_sample_at;
  last_database_activity_sample_at =
      later o.last_database_activity_sample_at c.last_database_activity_sample_at;
}

-- The kinds of rows that are counted, one for each counter.
pub data Counter : Type 0 where
  additional_metric sql_sample sql_text sql_cursor_metadata sql_plan_operation session_sample
        blocking_session_sample database_activity_sample database_status_sample instance_sample
        resource_limit_sample tablespace_sample asm_diskgroup_sample system_counter_sample
        wait_class_sample system_metric_sample data_guard_destination data_guard_lag
        data_guard_process scrape_status :
      Counter

abbrev counter_code : Counter → ℕ
counter_code additional_metric = 0
counter_code sql_sample = 1
counter_code sql_text = 2
counter_code sql_cursor_metadata = 3
counter_code sql_plan_operation = 4
counter_code session_sample = 5
counter_code blocking_session_sample = 6
counter_code database_activity_sample = 7
counter_code database_status_sample = 8
counter_code instance_sample = 9
counter_code resource_limit_sample = 10
counter_code tablespace_sample = 11
counter_code asm_diskgroup_sample = 12
counter_code system_counter_sample = 13
counter_code wait_class_sample = 14
counter_code system_metric_sample = 15
counter_code data_guard_destination = 16
counter_code data_guard_lag = 17
counter_code data_guard_process = 18
counter_code scrape_status = 19

abbrev pub same_counter : Counter → Counter → Bool
same_counter k j = eqb (counter_code k) (counter_code j)

-- The counter of a kind.
abbrev pub rows_of : Counter → RepositoryIngestCounts → ℤ
rows_of additional_metric c = c.additional_metric_rows
rows_of sql_sample c = c.sql_sample_rows
rows_of sql_text c = c.sql_text_writes
rows_of sql_cursor_metadata c = c.sql_cursor_metadata_writes
rows_of sql_plan_operation c = c.sql_plan_operation_writes
rows_of session_sample c = c.session_sample_rows
rows_of blocking_session_sample c = c.blocking_session_sample_rows
rows_of database_activity_sample c = c.database_activity_sample_rows
rows_of database_status_sample c = c.database_status_sample_rows
rows_of instance_sample c = c.instance_sample_rows
rows_of resource_limit_sample c = c.resource_limit_sample_rows
rows_of tablespace_sample c = c.tablespace_sample_rows
rows_of asm_diskgroup_sample c = c.asm_diskgroup_sample_rows
rows_of system_counter_sample c = c.system_counter_sample_rows
rows_of wait_class_sample c = c.wait_class_sample_rows
rows_of system_metric_sample c = c.system_metric_sample_rows
rows_of data_guard_destination c = c.data_guard_destination_rows
rows_of data_guard_lag c = c.data_guard_lag_rows
rows_of data_guard_process c = c.data_guard_process_rows
rows_of scrape_status c = c.scrape_status_rows

-- What each kind's `increment` does with the entry, at the time of the sample.
unfoldable pub increment : Counter → Time → RepositoryIngestCounts → RepositoryIngestCounts
increment additional_metric at c = record c {
  additional_metric_rows = add64 c.additional_metric_rows (pos 1);
}
increment sql_sample at c = record c {
  sql_sample_rows = add64 c.sql_sample_rows (pos 1);
  last_sql_sample_at = later at c.last_sql_sample_at;
}
increment sql_text at c = record c { sql_text_writes = add64 c.sql_text_writes (pos 1) }
increment sql_cursor_metadata at c = record c {
  sql_cursor_metadata_writes = add64 c.sql_cursor_metadata_writes (pos 1);
}
increment sql_plan_operation at c = record c {
  sql_plan_operation_writes = add64 c.sql_plan_operation_writes (pos 1);
}
increment session_sample at c = record c {
  session_sample_rows = add64 c.session_sample_rows (pos 1);
  last_session_sample_at = later at c.last_session_sample_at;
}
increment blocking_session_sample at c = record c {
  blocking_session_sample_rows = add64 c.blocking_session_sample_rows (pos 1);
}
increment database_activity_sample at c = record c {
  database_activity_sample_rows = add64 c.database_activity_sample_rows (pos 1);
  last_database_activity_sample_at = later at c.last_database_activity_sample_at;
}
increment database_status_sample at c = record c {
  database_status_sample_rows = add64 c.database_status_sample_rows (pos 1);
}
increment instance_sample at c = record c {
  instance_sample_rows = add64 c.instance_sample_rows (pos 1);
}
increment resource_limit_sample at c = record c {
  resource_limit_sample_rows = add64 c.resource_limit_sample_rows (pos 1);
}
increment tablespace_sample at c = record c {
  tablespace_sample_rows = add64 c.tablespace_sample_rows (pos 1);
}
increment asm_diskgroup_sample at c = record c {
  asm_diskgroup_sample_rows = add64 c.asm_diskgroup_sample_rows (pos 1);
}
increment system_counter_sample at c = record c {
  system_counter_sample_rows = add64 c.system_counter_sample_rows (pos 1);
}
increment wait_class_sample at c = record c {
  wait_class_sample_rows = add64 c.wait_class_sample_rows (pos 1);
}
increment system_metric_sample at c = record c {
  system_metric_sample_rows = add64 c.system_metric_sample_rows (pos 1);
}
increment data_guard_destination at c = record c {
  data_guard_destination_rows = add64 c.data_guard_destination_rows (pos 1);
}
increment data_guard_lag at c = record c {
  data_guard_lag_rows = add64 c.data_guard_lag_rows (pos 1);
}
increment data_guard_process at c = record c {
  data_guard_process_rows = add64 c.data_guard_process_rows (pos 1);
}
increment scrape_status at c = record c { scrape_status_rows = add64 c.scrape_status_rows (pos 1) }
