-- ===== src/Scenarios/Retention.antt =====
-- A cleanup of a week's retention that meets an error in its second table.
use harry_performance_scrape.Prelude.{◌*◌, refl, none, some, [], ◌∷◌, All}
use harry_performance_scrape.Prelude.Int.{pos}
use harry_performance_scrape.Texts.{text}
use harry_performance_scrape.Errors.{Error}
use harry_performance_scrape.Sink.Retention.{
  day, drop_days, Partitioned, drop_expired_partitions_for_table, drop_expired_partitions,
  Repository, retention_cutoff, cleanup_retention,
}
use harry_performance_scrape.Sink.Kept.{KeepsYoung, cleanup_retention-KeepsYoung}
use harry_performance_scrape.Sink.Dropped.{IsCurrent, drop_expired_partitions-IsCurrent}

abbrev locked : Error
locked = record { message = text "canceling statement due to lock timeout"; causes = [] }

abbrev metrics_days : Partitioned
metrics_days = record {
  list_err = none;
  drop_err = λ d. none;
  days = 100 * day ∷ 101 * day ∷ 108 * day ∷ [];
}

abbrev repository : Repository
repository = record {
  retention = pos (7 * day);
  last_retention_cleanup = 0;
  partitioned = metrics_days ∷ record metrics_days { drop_err = λ d. some locked } ∷ [];
  tables = record { err = none; rows = 90 * day ∷ 107 * day ∷ [] } ∷ [];
  cursor_err = λ n. none;
  sql_cursor_metadata = 90 * day ∷ 107 * day ∷ [];
}

cleanup_retention-KeepsYoung_example :
    KeepsYoung
      (retention_cutoff (109 * day) repository.retention)
      repository
      (cleanup_retention (109 * day) repository)
cleanup_retention-KeepsYoung_example = cleanup_retention-KeepsYoung (109 * day) repository

drop_expired_partitions-IsCurrent_example :
    All (IsCurrent (102 * day)) (drop_expired_partitions (102 * day) (metrics_days ∷ [])).0
drop_expired_partitions-IsCurrent_example =
    drop_expired_partitions-IsCurrent (102 * day) (metrics_days ∷ [])
      (unfold drop_expired_partitions drop_expired_partitions_for_table drop_days in refl)
