-- ===== src/Sink/Kept.antt =====
-- What cleanupRetention of postgresql/postgresql.go leaves alone.
use harry_performance_scrape.Prelude.{
  ◌+◌, ℕ, zero, suc, ◌-◌, ◌≤◌, ◌≡◌, refl, inl, inr, Option, none, some, List, [], ◌∷◌, map, ltb,
  leb, keep, arith, Bool-cases, Option-cases, ◌∙◌,
}
use harry_performance_scrape.Prelude.Int.{pos, leb_ℤ}
use harry_performance_scrape.Clock.{Time}
use harry_performance_scrape.Errors.{Error}
use harry_performance_scrape.Sink.Retention.{
  day, day_start_utc, drop_days, Partitioned, drop_expired_partitions_for_table,
  drop_expired_partitions, delete_before, Table, delete_expired, delete_batch, delete_batches,
  Repository, retention_cutoff, cleaned_too_recently, with_tables, cleanup_retention,
  sql_cursor_metadata_delete_batch_size, sql_cursor_metadata_delete_max_batches,
}

-- The partitions that may hold a row that is not older than the cutoff.
abbrev pub young_days : Time → List Time → List Time
young_days cutoff ds = keep (λ d. ltb cutoff (d + day)) ds

-- The rows that are not older than the cutoff.
abbrev pub young_rows : Time → List Time → List Time
young_rows cutoff ts = keep (λ t. leb cutoff t) ts

young_days-drop_days :
    (drop_err : Time → Option Error) (cutoff : Time) (ds : List Time)
    → young_days cutoff (drop_days drop_err cutoff ds).0 ≡ young_days cutoff ds
unfolding drop_days keep
young_days-drop_days drop_err cutoff [] = refl
young_days-drop_days drop_err cutoff (d ∷ ds) =
    ground (arith, young_days-drop_days drop_err cutoff ds)

young_rows-delete_batch :
    (limit : ℕ) (cutoff earlier : Time) (ts : List Time)
    → earlier ≤ cutoff
    → young_rows cutoff (delete_batch limit earlier ts).0 ≡ young_rows cutoff ts
unfolding delete_batch keep
young_rows-delete_batch limit cutoff earlier [] h = refl
young_rows-delete_batch limit cutoff earlier (t ∷ ts) h = ground (
  arith,
  young_rows-delete_batch limit cutoff earlier ts,
  young_rows-delete_batch (limit - 1) cutoff earlier ts,
)

young_rows-keep :
    (cutoff earlier : Time) (ts : List Time)
    → earlier ≤ cutoff
    → young_rows cutoff (keep (λ t. leb earlier t) ts) ≡ young_rows cutoff ts
unfolding keep
young_rows-keep cutoff earlier [] h = refl
young_rows-keep cutoff earlier (t ∷ ts) h = ground (arith, young_rows-keep cutoff earlier ts)

day_start_utc-le : (t : Time) → day_start_utc t ≤ t
unfolding day_start_utc
day_start_utc-le t = omega arith

young_days-table :
    (cutoff : Time) (t : Partitioned)
    → young_days cutoff (drop_expired_partitions_for_table cutoff t).0.days
      ≡ young_days cutoff t.days
unfolding drop_expired_partitions_for_table
young_days-table cutoff t = elim (Option-cases t.list_err) [
  | inl fine ↦
      rw (fine, drop_expired_partitions_for_table) (young_days-drop_days t.drop_err cutoff t.days)
  | inr (e, bad) ↦ rw (bad, drop_expired_partitions_for_table) refl
]

abbrev pub young_partitions : Time → List Partitioned → List (List Time)
young_partitions cutoff ts = map (λ t. young_days cutoff t.days) ts

young_partitions-drop :
    (cutoff : Time) (ts : List Partitioned)
    → young_partitions cutoff (drop_expired_partitions cutoff ts).0 ≡ young_partitions cutoff ts
unfolding drop_expired_partitions
young_partitions-drop cutoff [] = refl
young_partitions-drop cutoff (t ∷ ts) =
    elim (Option-cases (drop_expired_partitions_for_table cutoff t).1) [
      | inl fine ↦
          rw
            (
              fine,
              drop_expired_partitions,
              young_days-table cutoff t,
              young_partitions-drop cutoff ts,
            )
            refl
      | inr (e, bad) ↦ rw (bad, drop_expired_partitions, young_days-table cutoff t) refl
    ]

abbrev pub young_tables : Time → List Table → List (List Time)
young_tables cutoff ts = map (λ t. young_rows cutoff t.rows) ts

young_rows-delete_before :
    (err : Option Error) (cutoff earlier : Time) (rows : List Time)
    → earlier ≤ cutoff
    → young_rows cutoff (delete_before err earlier rows).0 ≡ young_rows cutoff rows
unfolding delete_before
young_rows-delete_before none cutoff earlier rows h = young_rows-keep cutoff earlier rows h
young_rows-delete_before (some e) cutoff earlier rows h = refl

young_tables-delete_expired :
    (cutoff earlier : Time) (ts : List Table)
    → earlier ≤ cutoff
    → young_tables cutoff (delete_expired earlier ts).0 ≡ young_tables cutoff ts
unfolding delete_expired
young_tables-delete_expired cutoff earlier [] h = refl
young_tables-delete_expired cutoff earlier (t ∷ ts) h =
    elim (Option-cases (delete_before t.err earlier t.rows).1) [
      | inl fine ↦
          rw
            (
              fine,
              delete_expired,
              young_rows-delete_before t.err cutoff earlier t.rows h,
              young_tables-delete_expired cutoff earlier ts h,
            )
            refl
      | inr (e, bad) ↦
          rw (bad, delete_expired, young_rows-delete_before t.err cutoff earlier t.rows h) refl
    ]

young_rows-delete_batches :
    (left : ℕ) (err : ℕ → Option Error) (cutoff earlier : Time) (rows : List Time)
    → earlier ≤ cutoff
    → young_rows cutoff (delete_batches left err earlier rows).0 ≡ young_rows cutoff rows
unfolding delete_batches
young_rows-delete_batches zero err cutoff earlier rows h = refl
young_rows-delete_batches (suc left) err cutoff earlier rows h =
    let first : List Time × ℕ = delete_batch sql_cursor_metadata_delete_batch_size earlier rows in
    let same : young_rows cutoff first.0 ≡ young_rows cutoff rows =
      young_rows-delete_batch sql_cursor_metadata_delete_batch_size cutoff earlier rows h in
    elim (Option-cases (err left)) [
      | inr (e, bad) ↦ rw (bad, delete_batches) refl
      | inl fine ↦ elim (Bool-cases (ltb first.1 sql_cursor_metadata_delete_batch_size)) [
        | inl last ↦ rw (fine, last, delete_batches) same
        | inr more ↦
            rw (fine, more, delete_batches)
              (young_rows-delete_batches left err cutoff earlier first.0 h ∙ same)
      ]
    ]

-- Whatever may be young is the same in both.
pub record KeepsYoung (cutoff : Time) (r s : Repository) : Type 0 where
  pub partitions : young_partitions cutoff s.partitioned ≡ young_partitions cutoff r.partitioned
  pub tables : young_tables cutoff s.tables ≡ young_tables cutoff r.tables
  pub cursors : young_rows cutoff s.sql_cursor_metadata ≡ young_rows cutoff r.sql_cursor_metadata

with_tables-KeepsYoung :
    (cutoff earlier : Time) (r : Repository)
    → earlier ≤ cutoff
    → KeepsYoung cutoff r (with_tables earlier r)
with_tables-KeepsYoung cutoff earlier r h =
    let same : young_tables cutoff (delete_expired earlier r.tables).0
        ≡ young_tables cutoff r.tables =
      young_tables-delete_expired cutoff earlier r.tables h in
    elim (Option-cases (delete_expired earlier r.tables).1) [
      | inl fine ↦
          rw (fine, with_tables)
            (record {
              partitions = refl;
              tables = same;
              cursors =
                  young_rows-delete_batches sql_cursor_metadata_delete_max_batches r.cursor_err
                    cutoff earlier r.sql_cursor_metadata h;
            })
      | inr (e, bad) ↦
          rw (bad, with_tables) (record { partitions = refl; tables = same; cursors = refl })
    ]

unchanged : (cutoff : Time) (r : Repository) → KeepsYoung cutoff r r
unchanged cutoff r = record { partitions = refl; tables = refl; cursors = refl }

abbrev dropped : Time → Time → Repository → Repository
dropped now cutoff r = record r {
  last_retention_cleanup = now;
  partitioned = (drop_expired_partitions cutoff r.partitioned).0;
}

dropped-KeepsYoung :
    (now cutoff : Time) (r : Repository)
    → KeepsYoung cutoff r (with_tables (day_start_utc cutoff) (dropped now cutoff r))
dropped-KeepsYoung now cutoff r =
    let k : KeepsYoung cutoff (dropped now cutoff r) _ =
      with_tables-KeepsYoung cutoff (day_start_utc cutoff) (dropped now cutoff r)
        (day_start_utc-le cutoff) in
    record {
      partitions = k.partitions ∙ young_partitions-drop cutoff r.partitioned;
      tables = k.tables;
      cursors = k.cursors;
    }

-- Whatever PostgreSQL answers, a cleanup leaves every row that is within the retention: each partition
-- whose day ends after the cutoff, and each row of the other tables that is not older than it.
pub cleanup_retention-KeepsYoung :
    (now : Time) (r : Repository)
    → KeepsYoung (retention_cutoff now r.retention) r (cleanup_retention now r)
unfolding cleanup_retention
cleanup_retention-KeepsYoung now r =
    let cutoff : Time = retention_cutoff now r.retention in
    elim (Bool-cases (leb_ℤ r.retention (pos 0))) [
      | inl off ↦ rw (off, cleanup_retention) (unchanged cutoff r)
      | inr on ↦ elim (Bool-cases (cleaned_too_recently now r)) [
        | inl early ↦ rw (on, early, cleanup_retention) (unchanged cutoff r)
        | inr due ↦ elim (Option-cases (drop_expired_partitions cutoff r.partitioned).1) [
          | inl fine ↦ rw (on, due, fine, cleanup_retention) (dropped-KeepsYoung now cutoff r)
          | inr (e, bad) ↦
              rw (on, due, bad, cleanup_retention)
                (record {
                  partitions = young_partitions-drop cutoff r.partitioned;
                  tables = refl;
                  cursors = refl;
                })
        ]
      ]
    ]
