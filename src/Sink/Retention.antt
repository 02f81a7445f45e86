-- ===== src/Sink/Retention.antt =====
-- cleanupRetention of postgresql/postgresql.go, under `retentionMu`, and what it deletes. A table is
-- the list of the times that decide: the days of its partitions, or the times of its rows. No row is
-- locked by another transaction.
use harry_performance_scrape.Prelude.{
  ℕ, zero, suc, ◌+◌, ◌-◌, ◌*◌, ◌%◌, Bool, not, ◌&&◌, Option, none, some, List, [], ◌∷◌,
  if◌then◌else◌, ltb, leb, keep,
}
use harry_performance_scrape.Prelude.Int.{pos, leb_ℤ, ltb_ℤ, pos_part}
use harry_performance_scrape.Clock.{Time, Duration, time_sub, is_zero, hour}
use harry_performance_scrape.Errors.{Error}

abbrev pub day : ℕ
day = 24 * hour

-- dayStartUTC: years, months and leap years do not matter to the start of a day.
unfoldable pub day_start_utc : Time → Time
day_start_utc t = t - t % day

abbrev pub retention_day_cutoff : Time → Time
retention_day_cutoff cutoff = day_start_utc cutoff

abbrev pub is_expired : Time → Time → Bool
is_expired cutoff d = leb (d + day) cutoff

-- The loop that drops the expired partitions; `drop_err` is the answer for each day.
unfoldable pub drop_days : (Time → Option Error) → Time → List Time → List Time × Option Error
drop_days drop_err cutoff [] = ([], none)
drop_days drop_err cutoff (d ∷ ds) =
    let (rest, err) = drop_days drop_err cutoff ds in
    if is_expired cutoff d
    then elim (drop_err d) [ none ↦ (rest, err) | some e ↦ (d ∷ ds, some e) ]
    else (d ∷ rest, err)

-- A partitioned table: whether its partitions can be listed, what a drop answers, and its days.
pub record Partitioned : Type 0 where
  pub list_err : Option Error
  pub drop_err : Time → Option Error
  pub days : List Time

unfoldable pub drop_expired_partitions_for_table : Time → Partitioned → Partitioned × Option Error
unfolding drop_days
drop_expired_partitions_for_table cutoff t = elim t.list_err [
  | some e ↦ (t, some e)
  | none ↦ let (left, err) = drop_days t.drop_err cutoff t.days in (record t { days = left }, err)
]

-- dropExpiredPartitions, over partitionedTables: the first error ends it.
unfoldable pub drop_expired_partitions : Time → List Partitioned → List Partitioned × Option Error
unfolding drop_expired_partitions_for_table
drop_expired_partitions cutoff [] = ([], none)
drop_expired_partitions cutoff (t ∷ ts) =
    let (t', err) = drop_expired_partitions_for_table cutoff t in
    let (ts', later) = drop_expired_partitions cutoff ts in
    elim err [ none ↦ (t' ∷ ts', later) | some e ↦ (t' ∷ ts, some e) ]

-- `delete from ... where <time> < cutoff`
unfoldable pub delete_before : Option Error → Time → List Time → List Time × Option Error
delete_before err cutoff rows = elim err [
  | none ↦ (keep (λ t. leb cutoff t) rows, none)
  | some e ↦ (rows, some e)
]

-- The tables of cleanupRetention that are not partitioned, with PostgreSQL's answers.
pub record Table : Type 0 where
  pub err : Option Error
  pub rows : List Time

-- deleteExpiredLatestScrapeStatuses, deleteExpiredLatestRuntimeStatuses, deleteExpiredSQLTexts and
-- deleteExpiredSQLPlans, one after the other: the first error ends it.
unfoldable pub delete_expired : Time → List Table → List Table × Option Error
unfolding delete_before
delete_expired cutoff [] = ([], none)
delete_expired cutoff (t ∷ ts) =
    let (rows, err) = delete_before t.err cutoff t.rows in
    let (ts', later) = delete_expired cutoff ts in
    elim err [
      | none ↦ (record t { rows = rows } ∷ ts', later)
      | some e ↦ (record t { rows = rows } ∷ ts, some e)
    ]

abbrev pub sql_cursor_metadata_delete_batch_size : ℕ
sql_cursor_metadata_delete_batch_size = 2000

abbrev pub sql_cursor_metadata_delete_max_batches : ℕ
sql_cursor_metadata_delete_max_batches = 5

-- One batch: the first `limit` expired rows, in the order of last_seen_at; and how many they are.
unfoldable pub delete_batch : ℕ → Time → List Time → List Time × ℕ
delete_batch limit cutoff [] = ([], 0)
delete_batch limit cutoff (t ∷ ts) =
    let (fewer, n) = delete_batch (limit - 1) cutoff ts in
    let (others, m) = delete_batch limit cutoff ts in
    if leb limit 0 then (t ∷ ts, 0) else if ltb t cutoff then (fewer, suc n) else (t ∷ others, m)

-- deleteExpiredSQLCursorMetadata, with the batches left and the answers that come.
unfoldable pub delete_batches : ℕ → (ℕ → Option Error) → Time → List Time → List Time × Option Error
unfolding delete_batch
delete_batches zero err cutoff rows = (rows, none)
delete_batches (suc left) err cutoff rows = elim (err left) [
  | some e ↦ (rows, some e)
  | none ↦
      let (rows', n) = delete_batch sql_cursor_metadata_delete_batch_size cutoff rows in
      let rest = delete_batches left err cutoff rows' in
      if ltb n sql_cursor_metadata_delete_batch_size then (rows', none) else rest
]

-- `tables` are the latest scrape statuses, the latest runtime statuses, the SQL texts and the SQL plans.
pub record Repository : Type 0 where
  pub retention : Duration
  pub last_retention_cleanup : Time
  pub partitioned : List Partitioned
  pub tables : List Table
  pub cursor_err : ℕ → Option Error
  pub sql_cursor_metadata : List Time

-- `time.Now().UTC().Add(-s.retention)`
abbrev pub retention_cutoff : Time → Duration → Time
retention_cutoff now retention = now - pos_part retention

abbrev pub cleaned_too_recently : Time → Repository → Bool
cleaned_too_recently now r =
    not (is_zero r.last_retention_cleanup)
    && ltb_ℤ (time_sub now r.last_retention_cleanup) (pos hour)

abbrev pub with_cursors : Time → Repository → Repository
with_cursors cutoff r = record r {
  sql_cursor_metadata =
      (delete_batches sql_cursor_metadata_delete_max_batches r.cursor_err cutoff
        r.sql_cursor_metadata).0;
}

abbrev pub with_tables : Time → Repository → Repository
with_tables cutoff r =
    let (tables, err) = delete_expired cutoff r.tables in
    let r' : Repository = record r { tables = tables } in
    elim err [ none ↦ with_cursors cutoff r' | some e ↦ r' ]

unfoldable pub cleanup_retention : Time → Repository → Repository
unfolding drop_expired_partitions delete_expired delete_batches
cleanup_retention now r =
    if leb_ℤ r.retention (pos 0)
    then r
    else if cleaned_too_recently now r
    then r
    else (let cutoff = retention_cutoff now r.retention in
        let (partitioned, err) = drop_expired_partitions cutoff r.partitioned in
        let r' : Repository = record r {
          last_retention_cleanup = now;
          partitioned = partitioned;
        } in
        elim err [ none ↦ with_tables (retention_day_cutoff cutoff) r' | some e ↦ r' ])
