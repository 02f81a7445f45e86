-- ===== src/Scenarios/Ingestion.antt =====
-- Runs of the accounting of ingestion and of the gathering of texts and cursors.
use harry_performance_scrape.Prelude.{◌≡◌, refl, none, some, List, [], ◌∷◌, true}
use harry_performance_scrape.Prelude.Int.{pos, add64, wrap64}
use harry_performance_scrape.Texts.{text}
use harry_performance_scrape.Clock.{minute}
use harry_performance_scrape.Samples.{MetricSample, SampleBatch}
use harry_performance_scrape.Samples.Operational
use harry_performance_scrape.Samples.Performance
use harry_performance_scrape.Sink.Ingest.{
  RepositoryIngestKey, additional_metric, collect_repository_ingest,
}
use harry_performance_scrape.Sink.Ingest.Tally.{counted}
use harry_performance_scrape.Sink.Ingest.Exact.{number_of, counted-collect_repository_ingest}
use harry_performance_scrape.Prelude.Dict.{lookup}
use harry_performance_scrape.Samples.Performance.{SqlSample, PerformanceSamples}
use harry_performance_scrape.Sink.Texts.{
  SqlTextKey, SqlCursorMetadataKey, text_key_eq, cursor_key_eq, collect_sql_text_updates,
  collect_sql_cursor_metadata, collect_sql_plan_references, described_cursor, referenced_plan,
}
use harry_performance_scrape.Sink.Texts.Newest.{latest}
use harry_performance_scrape.Sink.Texts.Mentions.{now_of, all_mentions, entries, collected_newest}
use harry_performance_scrape.Scenarios.Selection.{blank}
use harry_performance_scrape.Prelude.{Option, string_eq}
use harry_performance_scrape.Clock.{Time}
use harry_performance_scrape.Texts.{Text}
use harry_performance_scrape.Errors.{Error}
use harry_performance_scrape.Sink.Partitions.{
  Table, ensure_write_partitions, write_times, ensure_each, ensure_daily_partitions, create_days,
  days_of,
}
use harry_performance_scrape.Sink.Rows.{HasPartitions, ensure_write_partitions-IsCovered}
use harry_performance_scrape.Sink.Partitions.{has_day}
use harry_performance_scrape.Sink.Retention.{day_start_utc}
use harry_performance_scrape.Sink.Accounting.{
  Accounting, IngestTransaction, Event, recorded, flush_begins, flush_ends, run,
}
use harry_performance_scrape.Sink.Accounting.Ledger.{ledger, recorded_rows, ledger-run}

abbrev sessions : MetricSample
sessions = record {
  collected_at = 5;
  database = "orcl";
  context = text "sessions";
  name = text "value";
  help = [];
  type = text "gauge";
  value = 0;
  labels = [];
}

-- Two rows of one database, and one of another.
abbrev batch : SampleBatch
batch = record {
  additional_metrics = sessions ∷ sessions ∷ record sessions { database = "other" } ∷ [];
  performance = Performance.empty;
  operational = Operational.empty;
  scrape_statuses = [];
  connection_states = [];
  connection_states_complete = true;
  runtime = none;
}

abbrev today : RepositoryIngestKey
today = record { day = 0; database = "orcl" }

counted-collect_repository_ingest_example :
    counted additional_metric today (collect_repository_ingest batch)
    ≡ wrap64 (pos (number_of today batch additional_metric))
counted-collect_repository_ingest_example =
    counted-collect_repository_ingest today batch additional_metric

abbrev empty : Accounting
empty = record {
  pending = [];
  in_flight = none;
  last_flush_attempt = 0;
  flush_interval = pos minute;
  stored = [];
}

abbrev fine : IngestTransaction
fine = record { begin_err = none; partitions = none; upsert = none; close = none; commit = none }

abbrev refusing : IngestTransaction
refusing = record fine {
  upsert = some (record { message = text "deadlock detected"; causes = [] });
}

-- A batch is recorded while a flush that fails is under way; the next flush writes both.
abbrev events : List Event
events =
    recorded batch
    ∷ flush_begins true 9
    ∷ recorded batch
    ∷ flush_ends refusing
    ∷ flush_begins true 20
    ∷ flush_ends fine
    ∷ []

ledger-run_example :
    ledger additional_metric today (run events empty)
    ≡ add64
        (ledger additional_metric today empty)
        (wrap64 (pos (recorded_rows additional_metric today events)))
ledger-run_example =
    ledger-run additional_metric today events empty (record { pending = tt; in_flight = tt })

-- A cursor that is seen twice, the newer sample first.
abbrev cursors : List SqlSample
cursors = record blank { collected_at = 9 } ∷ blank ∷ []

abbrev described : PerformanceSamples
described = record Performance.empty {
  sql = cursors;
  sql_texts =
      record { collected_at = 7; database = "orcl"; sql_id = "a"; sql_full_text = "select 1" } ∷ [];
}

abbrev statement : SqlTextKey
statement = record { database = "orcl"; sql_id = "a" }

abbrev cursor : SqlCursorMetadataKey
cursor = record {
  database = "orcl";
  inst_id = pos 1;
  sql_id = "a";
  child_number = pos 0;
  plan_hash_value = pos 77;
}

collected_newest_example :
    (lookup statement (collect_sql_text_updates described).1
      ≡ latest now_of statement (all_mentions described))
    × (lookup cursor (collect_sql_cursor_metadata cursors)
        ≡ latest
            (λ s. s.collected_at)
            cursor
            (entries (λ s. s.collected_at) described_cursor (λ s. s) cursors))
    × (lookup cursor (collect_sql_plan_references cursors)
        ≡ latest now_of cursor (entries now_of referenced_plan (λ s. s.collected_at) cursors))
collected_newest_example = collected_newest described cursors statement cursor

abbrev quoted : Table → Text
quoted table = text "table"

abbrev made : Table → Time → Option Error
made table day = none

no_refusal : (ensure_write_partitions made quoted batch [] []).1 ≡ none
unfolding ensure_write_partitions ensure_each ensure_daily_partitions create_days days_of
    write_times has_day day_start_utc Performance.empty Operational.empty
no_refusal = refl

ensure_write_partitions-IsCovered_example :
    HasPartitions batch [] (ensure_write_partitions made quoted batch [] []).0
ensure_write_partitions-IsCovered_example =
    ensure_write_partitions-IsCovered made quoted batch [] [] no_refusal
