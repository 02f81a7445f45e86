-- ===== src/Consumers.antt =====
-- The SQL statements that use the most time between two collections of details
-- (recordSQLConsumerDeltas and takeTopSQLConsumers of collector/performance.go), under `sqlConsumerMu`.
pub mod Ranking
pub mod Workload
use harry_performance_scrape.Prelude.{
  ℕ, zero, suc, ◌≡◌, ◌↔◌, Bool, true, false, not, ◌&&◌, ◌||◌, Option, none, some, List, [], ◌∷◌,
  map, String, string_eq, ◌==◌, Comparable, if◌then◌else◌, arith, take, keep, or_else, ltb, is_some,
}
use harry_performance_scrape.Prelude.Int.{ℤ, pos, negsuc, int_eq, leb_ℤ, ltb_ℤ, add64, sub64}
use harry_performance_scrape.Prelude.Dict.{Dict, lookup, insert, delete}
use harry_performance_scrape.Prelude.Sorting.{sorted}
use harry_performance_scrape.Texts.{Text, text}
use harry_performance_scrape.Samples.Performance.{SqlSample}

pub record SqlCounterKey : Type 0 where
  pub inst_id : ℤ
  pub sql_id : String
  pub plan_hash_value : ℤ

abbrev pub sql_counter_key_same : SqlCounterKey → SqlCounterKey → Bool
sql_counter_key_same a b =
    a.inst_id == b.inst_id && a.sql_id == b.sql_id && a.plan_hash_value == b.plan_hash_value

pub sql_counter_key_iff : (a b : SqlCounterKey) → (sql_counter_key_same a b ≡ true) ↔ (a ≡ b)
sql_counter_key_iff a b = ground (
  arith,
  int_eq.same_iff a.inst_id b.inst_id,
  string_eq.same_iff a.sql_id b.sql_id,
  int_eq.same_iff a.plan_hash_value b.plan_hash_value,
)

instance abbrev pub sql_counter_key_eq : Comparable SqlCounterKey
sql_counter_key_eq = record { same = sql_counter_key_same; same_iff = sql_counter_key_iff }

pub record SqlCounterValues : Type 0 where
  pub elapsed_time_micro : ℤ
  pub cpu_time_micro : ℤ
  pub user_io_wait_micro : ℤ
  pub application_wait_micro : ℤ
  pub concurrency_wait_micro : ℤ
  pub cluster_wait_micro : ℤ
  pub executions : ℤ
  pub buffer_gets : ℤ
  pub disk_reads : ℤ

abbrev pub no_values : SqlCounterValues
no_values = record {
  elapsed_time_micro = pos 0;
  cpu_time_micro = pos 0;
  user_io_wait_micro = pos 0;
  application_wait_micro = pos 0;
  concurrency_wait_micro = pos 0;
  cluster_wait_micro = pos 0;
  executions = pos 0;
  buffer_gets = pos 0;
  disk_reads = pos 0;
}

abbrev pub int64_value : Option ℤ → ℤ
int64_value o = or_else o (pos 0)

unfoldable pub sql_counter_values_from_sample : SqlSample → SqlCounterValues
sql_counter_values_from_sample s = record {
  elapsed_time_micro = int64_value s.elapsed_time_micro;
  cpu_time_micro = int64_value s.cpu_time_micro;
  user_io_wait_micro = int64_value s.user_io_wait_micro;
  application_wait_micro = int64_value s.application_wait_micro;
  concurrency_wait_micro = int64_value s.concurrency_wait_micro;
  cluster_wait_micro = int64_value s.cluster_wait_micro;
  executions = int64_value s.executions;
  buffer_gets = int64_value s.buffer_gets;
  disk_reads = int64_value s.disk_reads;
}

unfoldable pub monotonic_delta : ℤ → ℤ → ℤ
monotonic_delta current previous = if leb_ℤ previous current then sub64 current previous else pos 0

-- A key that was not there before counts with its whole values.
unfoldable pub sql_counter_delta : SqlCounterValues → Option SqlCounterValues → SqlCounterValues
unfolding monotonic_delta
sql_counter_delta c none = c
sql_counter_delta c (some p) = record {
  elapsed_time_micro = monotonic_delta c.elapsed_time_micro p.elapsed_time_micro;
  cpu_time_micro = monotonic_delta c.cpu_time_micro p.cpu_time_micro;
  user_io_wait_micro = monotonic_delta c.user_io_wait_micro p.user_io_wait_micro;
  application_wait_micro = monotonic_delta c.application_wait_micro p.application_wait_micro;
  concurrency_wait_micro = monotonic_delta c.concurrency_wait_micro p.concurrency_wait_micro;
  cluster_wait_micro = monotonic_delta c.cluster_wait_micro p.cluster_wait_micro;
  executions = monotonic_delta c.executions p.executions;
  buffer_gets = monotonic_delta c.buffer_gets p.buffer_gets;
  disk_reads = monotonic_delta c.disk_reads p.disk_reads;
}

unfoldable pub add : SqlCounterValues → SqlCounterValues → SqlCounterValues
add v o = record {
  elapsed_time_micro = add64 v.elapsed_time_micro o.elapsed_time_micro;
  cpu_time_micro = add64 v.cpu_time_micro o.cpu_time_micro;
  user_io_wait_micro = add64 v.user_io_wait_micro o.user_io_wait_micro;
  application_wait_micro = add64 v.application_wait_micro o.application_wait_micro;
  concurrency_wait_micro = add64 v.concurrency_wait_micro o.concurrency_wait_micro;
  cluster_wait_micro = add64 v.cluster_wait_micro o.cluster_wait_micro;
  executions = add64 v.executions o.executions;
  buffer_gets = add64 v.buffer_gets o.buffer_gets;
  disk_reads = add64 v.disk_reads o.disk_reads;
}

abbrev pub Snapshot : Type 0
Snapshot = Dict SqlCounterKey SqlCounterValues

abbrev pub Deltas : Type 0
Deltas = Dict String SqlCounterValues

-- The two maps of the scraper, by database.
pub record Consumers : Type 0 where
  pub snapshots : Dict String Snapshot
  pub deltas : Dict String Deltas

unfoldable pub counter_key : SqlSample → SqlCounterKey
counter_key s = record {
  inst_id = s.inst_id;
  sql_id = s.sql_id;
  plan_hash_value = or_else s.plan_hash_value (pos 0);
}

abbrev pub accumulated : String → SqlCounterValues → Deltas → Deltas
accumulated sql_id delta ds = insert sql_id (add (or_else (lookup sql_id ds) no_values) delta) ds

-- One sample of the loop: the snapshot being built, and the deltas. With no snapshot from before, the
-- values are only kept.
unfoldable pub record_sample : Option Snapshot → SqlSample → Snapshot × Deltas → Snapshot × Deltas
unfolding sql_counter_values_from_sample sql_counter_delta counter_key add
record_sample previous s (current, ds) = if s.sql_id == "" then (current, ds) else (
  insert (counter_key s) (sql_counter_values_from_sample s) current,
  elim previous [
    | none ↦ ds
    | some p ↦
        accumulated s.sql_id
          (sql_counter_delta (sql_counter_values_from_sample s) (lookup (counter_key s) p)) ds
  ],
)

unfoldable pub record_samples :
    Option Snapshot → List SqlSample → Snapshot × Deltas → Snapshot × Deltas
unfolding record_sample
record_samples previous [] state = state
record_samples previous (s ∷ ss) state = record_samples previous ss (record_sample previous s state)

unfoldable pub record_sql_consumer_deltas : String → List SqlSample → Consumers → Consumers
unfolding record_samples
record_sql_consumer_deltas database samples c =
    let (current, ds) =
      record_samples (lookup database c.snapshots) samples
        ([], or_else (lookup database c.deltas) []) in
    record { snapshots = insert database current c.snapshots; deltas = insert database ds c.deltas }

unfoldable pub compare_int64 : ℤ → ℤ → ℤ
compare_int64 a b = if ltb_ℤ a b then negsuc 0 else if ltb_ℤ b a then pos 1 else pos 0

-- strings.Compare
unfoldable pub compare_text : Text → Text → ℤ
compare_text [] [] = pos 0
compare_text [] (b ∷ bs) = negsuc 0
compare_text (a ∷ s) [] = pos 1
compare_text (a ∷ s) (b ∷ bs) =
    let rest = compare_text s bs in if ltb a b then negsuc 0 else if ltb b a then pos 1 else rest

abbrev pub Ranked : Type 0
Ranked = String × SqlCounterValues

-- `if a != b { return -compareInt64(a, b) }`, and then the rest: whether the result is at most 0.
unfoldable pub descending : ℤ → ℤ → Bool → Bool
unfolding compare_int64
descending a b rest = if not (a == b) then leb_ℤ (pos 0) (compare_int64 a b) else rest

-- Whether the comparison of takeTopSQLConsumers puts one entry not behind another.
unfoldable pub ranks_before : Ranked → Ranked → Bool
unfolding descending compare_text
ranks_before (i, a) (j, b) = descending a.elapsed_time_micro b.elapsed_time_micro (
    descending a.cpu_time_micro b.cpu_time_micro (
      descending a.user_io_wait_micro b.user_io_wait_micro
        (leb_ℤ (compare_text (text i) (text j)) (pos 0))))

abbrev pub has_elapsed : Ranked → Bool
has_elapsed (i, v) = ltb_ℤ (pos 0) v.elapsed_time_micro

unfoldable pub ranked : String → Consumers → List Ranked
unfolding ranks_before
ranked database c = sorted ranks_before (keep has_elapsed (or_else (lookup database c.deltas) []))

-- The limit is positive.
unfoldable pub take_top_sql_consumers : String → ℕ → Consumers → Consumers × List String
unfolding ranked
take_top_sql_consumers database limit c = (
  record c { deltas = delete database c.deltas },
  map (λ r. r.0) (take limit (ranked database c)),
)
