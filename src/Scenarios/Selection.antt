-- ===== src/Scenarios/Selection.antt =====
-- Runs of the plan cache, the top statements and the reading of an alert log.
use harry_performance_scrape.Prelude.{
  ℕ, ◌≡◌, refl, Bool, false, none, some, List, [], ◌∷◌, ◌++◌, map, string_eq, All, take, drop, keep,
  count_if, arith, ◌+◌,
}
use harry_performance_scrape.Prelude.Int.{pos}
use harry_performance_scrape.Prelude.Dict.{lookup}
use harry_performance_scrape.Texts.{Text, text, text_eq}
use mathlib.Core.List.{reverse}
use harry_performance_scrape.Samples.Performance.{SqlSample, SqlPlanKey, SqlPlanOperation}
use harry_performance_scrape.PlanCache.{
  has_key, plan_key_eq, candidates, plan_key_of, uncached_sql_plan_candidates,
  mark_sql_plans_collected,
}
use harry_performance_scrape.PlanCache.Asked.{mark_then_uncached}
use harry_performance_scrape.Consumers.{
  SqlCounterValues, no_values, Consumers, Ranked, has_elapsed, ranked, take_top_sql_consumers,
}
use harry_performance_scrape.Consumers.{Snapshot, counter_key, record_samples}
use harry_performance_scrape.Consumers.Workload.{
  elapsed, HasCounters, gains, elapsed-record_samples,
}
use harry_performance_scrape.Consumers.Ranking.{deltas_of, UsesAsMuch, take_top_sql_consumers_lem}
use harry_performance_scrape.AlertLog.{Decoded, parsed, read_last_matching_log_record}
use harry_performance_scrape.AlertLog.Backwards.{
  lines_back, pick, read_last_matching_log_record_lem,
}

abbrev pub blank : SqlSample
blank = record {
  collected_at = 5;
  database = "orcl";
  inst_id = pos 1;
  sql_id = "a";
  child_number = some (pos 0);
  plan_hash_value = some (pos 77);
  parsing_schema_name = none;
  module_name = none;
  executions = none;
  elapsed_time_micro = some (pos 10);
  cpu_time_micro = none;
  user_io_wait_micro = none;
  application_wait_micro = none;
  concurrency_wait_micro = none;
  cluster_wait_micro = none;
  buffer_gets = none;
  disk_reads = none;
  direct_writes = none;
  rows_processed = none;
  fetches = none;
  loads = none;
  invalidations = none;
  parse_calls = none;
  last_active_time = none;
  sql_full_text = none;
}

-- The same plan twice, one without a plan, and another.
abbrev samples : List SqlSample
samples =
    blank
    ∷ blank
    ∷ record blank { plan_hash_value = some (pos 0) }
    ∷ record blank { sql_id = "b" }
    ∷ []

abbrev key_a : SqlPlanKey
key_a = record { inst_id = pos 1; sql_id = "a"; child_number = pos 0; plan_hash_value = pos 77 }

abbrev operation_of : SqlPlanKey → SqlPlanOperation
operation_of k = record {
  collected_at = 6;
  database = "orcl";
  sql_plan_key = k;
  plan_line_id = pos 0;
  parent_id = none;
  depth = none;
  position = none;
  operation = "SELECT STATEMENT";
  options = none;
  object_owner = none;
  object_name = none;
  object_type = none;
  optimizer = none;
  cost = none;
  cardinality = none;
  bytes = none;
  cpu_cost = none;
  io_cost = none;
  temp_space = none;
  partition_start = none;
  partition_stop = none;
  access_predicates = none;
  filter_predicates = none;
}

abbrev collected : List SqlPlanOperation
collected = operation_of key_a ∷ operation_of (record key_a { sql_id = "b" }) ∷ []

-- What is asked for is what is collected.
asked_is :
    (uncached_sql_plan_candidates "orcl" samples 20 []).1 ≡ map (λ p. p.sql_plan_key) collected
unfolding uncached_sql_plan_candidates candidates has_key plan_key_of keep lookup
asked_is = refl

mark_then_uncached_example :
    (uncached_sql_plan_candidates "orcl" samples 20 (
      mark_sql_plans_collected "orcl" collected
        (uncached_sql_plan_candidates "orcl" samples 20 []).0)).1
    ≡ []
mark_then_uncached_example =
    mark_then_uncached "orcl" samples 20 collected [] (λ k h. rw asked_is at h)

abbrev busy : ℕ → SqlCounterValues
busy n = record no_values { elapsed_time_micro = pos n }

abbrev consumers : Consumers
consumers = record {
  snapshots = [];
  deltas = ("orcl", ("a", busy 5) ∷ ("b", busy 0) ∷ ("c", busy 9) ∷ []) ∷ [];
}

take_top_sql_consumers_example :
    ((take_top_sql_consumers "orcl" 1 consumers).1
      ≡ map (λ r. r.0) (take 1 (ranked "orcl" consumers)))
    × All
        (λ a. All (UsesAsMuch a) (drop 1 (ranked "orcl" consumers)))
        (take 1 (ranked "orcl" consumers))
    × ((p : Ranked → Bool)
        → count_if p (ranked "orcl" consumers)
          ≡ count_if p (keep has_elapsed (deltas_of "orcl" consumers)))
take_top_sql_consumers_example = take_top_sql_consumers_lem "orcl" 1 consumers

-- The cursor of the first sample had used four microseconds before.
abbrev earlier : Snapshot
earlier = (counter_key blank, busy 4) ∷ []

earlier-HasCounters : HasCounters earlier
unfolding lookup
earlier-HasCounters k = ground arith

gains_a : gains earlier "a" samples ≡ 22
unfolding gains lookup counter_key
gains_a = refl

nothing_yet : elapsed "a" [] ≡ pos 0
unfolding lookup
nothing_yet = refl

elapsed-record_samples_example :
    elapsed "a" (record_samples (some earlier) samples ([], [])).1
    ≡ pos (0 + gains earlier "a" samples)
elapsed-record_samples_example =
    elapsed-record_samples earlier [] "a" samples [] 0 earlier-HasCounters
      ((refl, omega arith), ((refl, omega arith), ((refl, omega arith), ((refl, omega arith), tt))))
      refl nothing_yet (rw gains_a (omega arith))

-- A line is its message here, and its first byte the database.
abbrev by_first : Text → Decoded
by_first [] =
    parsed (record { timestamp = []; database = []; module_id = []; ecid = []; message = [] })
by_first (b ∷ bs) =
    parsed
      (record { timestamp = bs; database = b ∷ []; module_id = []; ecid = []; message = b ∷ bs })

abbrev bytes : List ℕ
bytes = text "x1" ++ (0x0a ∷ text "x2") ++ (0x0a ∷ text "y3") ++ (0x0a ∷ [])

read_last_matching_log_record_example :
    read_last_matching_log_record by_first false (text "x") bytes (λ n. none)
    ≡ pick by_first false (text "x") (lines_back [] (reverse bytes))
read_last_matching_log_record_example =
    read_last_matching_log_record_lem by_first false (text "x") bytes (λ n. none) (λ n. refl)
