-- ===== src/Sink/Ingest/Tally.antt =====
-- Reading the counters of the ingestion accounting of postgresql/postgresql.go.
use harry_performance_scrape.Prelude.{
  ℕ, suc, ◌+◌, ◌≡◌, refl, Bool, true, false, ◌&&◌, List, [], ◌∷◌, String, ◌==◌, if◌then◌else◌,
  arith, inl, inr, Bool-cases, count_if, or_else, ap, ◌∙◌, sym,
}
use harry_performance_scrape.Prelude.Int.{ℤ, pos, add64, wrap64}
use harry_performance_scrape.Prelude.Wrapping.{add64_pos}
use harry_performance_scrape.Prelude.Dict.{
  lookup, insert, lookup-insert, HasUniqueKeys, insert-HasUniqueKeys,
}
use harry_performance_scrape.Clock.{Time}
use harry_performance_scrape.Sink.Ingest.{
  RepositoryIngestKey, ingest_key_eq, RepositoryIngestCounts, no_counts, observe, add, Counter,
  same_counter, rows_of, increment, Counts, entry_of, is_counted, key_of, count_value,
  add_repository_ingest_values, additional_metric, sql_sample, sql_text, sql_cursor_metadata,
  sql_plan_operation, session_sample, blocking_session_sample, database_activity_sample,
  database_status_sample, instance_sample, resource_limit_sample, tablespace_sample,
  asm_diskgroup_sample, system_counter_sample, wait_class_sample, system_metric_sample,
  data_guard_destination, data_guard_lag, data_guard_process, scrape_status,
}

-- One more for the counter of the kind, and the others as they were.
rows_of-increment :
    (k j : Counter) (at : Time) (c : RepositoryIngestCounts)
    → rows_of k (increment j at c)
      ≡ (if same_counter k j then add64 (rows_of k c) (pos 1) else rows_of k c)
unfolding increment
rows_of-increment additional_metric additional_metric at c = refl
rows_of-increment k additional_metric at c = refl
rows_of-increment additional_metric sql_sample at c = refl
rows_of-increment k sql_sample at c = refl
rows_of-increment additional_metric sql_text at c = refl
rows_of-increment k sql_text at c = refl
rows_of-increment additional_metric sql_cursor_metadata at c = refl
rows_of-increment k sql_cursor_metadata at c = refl
rows_of-increment additional_metric sql_plan_operation at c = refl
rows_of-increment k sql_plan_operation at c = refl
rows_of-increment additional_metric session_sample at c = refl
rows_of-increment k session_sample at c = refl
rows_of-increment additional_metric blocking_session_sample at c = refl
rows_of-increment k blocking_session_sample at c = refl
rows_of-increment additional_metric database_activity_sample at c = refl
rows_of-increment k database_activity_sample at c = refl
rows_of-increment additional_metric database_status_sample at c = refl
rows_of-increment k database_status_sample at c = refl
rows_of-increment additional_metric instance_sample at c = refl
rows_of-increment k instance_sample at c = refl
rows_of-increment additional_metric resource_limit_sample at c = refl
rows_of-increment k resource_limit_sample at c = refl
rows_of-increment additional_metric tablespace_sample at c = refl
rows_of-increment k tablespace_sample at c = refl
rows_of-increment additional_metric asm_diskgroup_sample at c = refl
rows_of-increment k asm_diskgroup_sample at c = refl
rows_of-increment additional_metric system_counter_sample at c = refl
rows_of-increment k system_counter_sample at c = refl
rows_of-increment additional_metric wait_class_sample at c = refl
rows_of-increment k wait_class_sample at c = refl
rows_of-increment additional_metric system_metric_sample at c = refl
rows_of-increment k system_metric_sample at c = refl
rows_of-increment additional_metric data_guard_destination at c = refl
rows_of-increment k data_guard_destination at c = refl
rows_of-increment additional_metric data_guard_lag at c = refl
rows_of-increment k data_guard_lag at c = refl
rows_of-increment additional_metric data_guard_process at c = refl
rows_of-increment k data_guard_process at c = refl
rows_of-increment additional_metric scrape_status at c = refl
rows_of-increment k scrape_status at c = refl

rows_of-observe :
    (k : Counter) (t : Time) (c : RepositoryIngestCounts) → rows_of k (observe t c) ≡ rows_of k c
unfolding observe
rows_of-observe additional_metric t c = ground arith
rows_of-observe k t c = ground arith

pub rows_of-add :
    (k : Counter) (a b : RepositoryIngestCounts)
    → rows_of k (add a b) ≡ add64 (rows_of k a) (rows_of k b)
unfolding add
rows_of-add additional_metric a b = refl
rows_of-add k a b = refl

rows_of-no_counts : (k : Counter) → rows_of k no_counts ≡ pos 0
rows_of-no_counts additional_metric = refl
rows_of-no_counts k = refl

-- The samples that count for a key.
abbrev pub counts_for {ℓ} :
    {A : Type ℓ} → (A → Time) → (A → String) → RepositoryIngestKey → A → Bool
counts_for time_of database_of key v =
    is_counted (time_of v) (database_of v) && key_of (time_of v) (database_of v) == key

-- A counter of a key in a map.
abbrev pub counted : Counter → RepositoryIngestKey → Counts → ℤ
counted k key m = rows_of k (entry_of key m)

pub counted-insert :
    (k : Counter) (key at : RepositoryIngestKey) (c : RepositoryIngestCounts) (m : Counts)
    → counted k key (insert at c m) ≡ (if at == key then rows_of k c else counted k key m)
counted-insert k key at c m =
    ap (λ o. rows_of k (or_else o no_counts)) (lookup-insert m at c key)
    ∙ elim (Bool-cases (at == key)) [ inl same ↦ rw same refl | inr other ↦ rw other refl ]

abbrev if_more : Bool → ℤ → ℤ
if_more b z = if b then add64 z (pos 1) else z

-- The entry for a sample that counts.
counted-entry :
    (k j : Counter) (key at : RepositoryIngestKey) (t : Time) (m : Counts)
    → counted k key (insert at (increment j t (observe t (entry_of at m))) m)
      ≡ if_more (same_counter k j && at == key) (counted k key m)
counted-entry k j key at t m =
    counted-insert k key at (increment j t (observe t (entry_of at m))) m
    ∙ elim (Bool-cases (at == key)) [
      | inl same ↦
          let is_key : at ≡ key = (ingest_key_eq.same_iff at key).0 same in
          let entry : rows_of k (increment j t (observe t (entry_of at m)))
              ≡ if_more (same_counter k j) (counted k key m) =
            rows_of-increment k j t (observe t (entry_of at m))
            ∙ rw (rows_of-observe k t (entry_of at m), is_key) refl in
          elim (Bool-cases (same_counter k j)) [
            | inl mine ↦ rw (same, mine) (rw mine at entry)
            | inr other ↦ rw (same, other) (rw other at entry)
          ]
      | inr differs ↦ elim (Bool-cases (same_counter k j)) [
        | inl mine ↦ rw (differs, mine) refl
        | inr other ↦ rw (differs, other) refl
      ]
    ]

pub counted_none : (k : Counter) (key : RepositoryIngestKey) → counted k key [] ≡ pos 0
unfolding lookup
counted_none k key = rows_of-no_counts k

pub counted_nothing : (k : Counter) (key : RepositoryIngestKey) → counted k key [] ≡ wrap64 (pos 0)
unfolding wrap64
counted_nothing k key = counted_none k key

wrap64_one : wrap64 (pos 1) ≡ pos 1
unfolding wrap64
wrap64_one = refl

if_more-wrap64 :
    (b : Bool) (n : ℕ) → if_more b (wrap64 (pos n)) ≡ wrap64 (pos (n + (if b then 1 else 0)))
if_more-wrap64 true n = ap (add64 (wrap64 (pos n))) (sym wrap64_one) ∙ add64_pos n 1
if_more-wrap64 false n = ap (λ t. wrap64 (pos t)) (omega arith)

same_sum :
    (n m : ℕ) (b c : Bool)
    → n + (if b && c then 1 else 0) + (if b then m else 0)
      ≡ n + (if b then if c then suc m else m else 0)
same_sum n m b c = ground arith

module _ {ℓ} {A : Type ℓ} (time_of : A → Time) (database_of : A → String) where
  counted-count_value :
      (k j : Counter) (key : RepositoryIngestKey) (v : A) (m : Counts)
      → counted k key (count_value time_of database_of j v m)
        ≡ if_more (same_counter k j && counts_for time_of database_of key v) (counted k key m)
  unfolding count_value
  counted-count_value k j key v m = elim (Bool-cases (is_counted (time_of v) (database_of v))) [
    | inl counts ↦
        rw (counts, count_value)
          (counted-entry k j key (key_of (time_of v) (database_of v)) (time_of v) m)
    | inr skips ↦
        rw (skips, count_value)
          (elim (Bool-cases (same_counter k j)) [
            | inl mine ↦ rw mine refl
            | inr other ↦ rw other refl
          ])
  ]

  pub counted-add_repository_ingest_values :
      (k j : Counter) (key : RepositoryIngestKey) (vs : List A) (m : Counts) (n : ℕ)
      → counted k key m ≡ wrap64 (pos n)
      → counted k key (add_repository_ingest_values time_of database_of j vs m)
        ≡ wrap64 (
            pos (
              n
              + (if same_counter k j then count_if (counts_for time_of database_of key) vs else 0)))
  unfolding add_repository_ingest_values count_if
  counted-add_repository_ingest_values k j key [] m n h =
      h ∙ ap (λ t. wrap64 (pos t)) (ground arith)
  counted-add_repository_ingest_values k j key (v ∷ vs) m n h =
      let mine : Bool = counts_for time_of database_of key v in
      counted-add_repository_ingest_values k j key vs (count_value time_of database_of j v m)
        (n + (if same_counter k j && mine then 1 else 0))
        (counted-count_value k j key v m
          ∙ ap (if_more (same_counter k j && mine)) h
          ∙ if_more-wrap64 (same_counter k j && mine) n)
      ∙ ap (λ t. wrap64 (pos t))
          (same_sum n (count_if (counts_for time_of database_of key) vs) (same_counter k j) mine)

  pub add_repository_ingest_values-HasUniqueKeys :
      (j : Counter) (vs : List A) (m : Counts)
      → HasUniqueKeys m
      → HasUniqueKeys (add_repository_ingest_values time_of database_of j vs m)
  unfolding add_repository_ingest_values count_value
  add_repository_ingest_values-HasUniqueKeys j [] m h = h
  add_repository_ingest_values-HasUniqueKeys j (v ∷ vs) m h =
      add_repository_ingest_values-HasUniqueKeys j vs (count_value time_of database_of j v m)
        (elim (Bool-cases (is_counted (time_of v) (database_of v))) [
          | inl counts ↦ rw counts (
              insert-HasUniqueKeys (key_of (time_of v) (database_of v))
                (increment j (time_of v)
                  (observe (time_of v) (entry_of (key_of (time_of v) (database_of v)) m)))
                m h)
          | inr skips ↦ rw skips h
        ])
