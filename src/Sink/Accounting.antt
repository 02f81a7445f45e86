-- ===== src/Sink/Accounting.antt =====
-- The counts of ingestion between their recording and PostgreSQL (recordRepositoryIngest,
-- flushRepositoryIngest and writeRepositoryIngest of postgresql/postgresql.go). `ingestMu` is held for
-- each step on `pending`; a flush lets go of it while it writes, so that other writes may record.
pub mod Joined
pub mod Ledger
use harry_performance_scrape.Prelude.{
  ℕ, Bool, not, ◌&&◌, Option, none, some, List, [], ◌∷◌, ◌++◌, if◌then◌else◌, ◌*◌,
}
use harry_performance_scrape.Prelude.Int.{pos, ltb_ℤ, leb_ℤ}
use harry_performance_scrape.Prelude.Dict.{insert}
use harry_performance_scrape.Clock.{Time, Duration, time_sub, is_zero, minute}
use harry_performance_scrape.Texts.{text}
use harry_performance_scrape.Errors.{Error}
use harry_performance_scrape.Samples.{SampleBatch}
use harry_performance_scrape.Sink.Delivery.{◌else_try◌, wrapped}
use harry_performance_scrape.Sink.Ingest.{
  Counts, ingest_key_eq, add, entry_of, collect_repository_ingest,
}

abbrev pub repository_ingest_flush_interval : ℕ
repository_ingest_flush_interval = 5 * minute

-- `in_flight` is what a running flush has taken: it holds `ingestFlushMu`. `stored` lists the counts
-- that committed transactions have added to the table.
pub record Accounting : Type 0 where
  pub pending : Counts
  pub in_flight : Option Counts
  pub last_flush_attempt : Time
  pub flush_interval : Duration
  pub stored : List Counts

-- The loop of recordRepositoryIngest, and of the failed flush: the counts are added to the pending ones.
unfoldable pub add_counts : Counts → Counts → Counts
add_counts [] pending = pending
add_counts (e ∷ es) pending = add_counts es (insert e.0 (add (entry_of e.0 pending) e.1) pending)

unfoldable pub record_repository_ingest : SampleBatch → Accounting → Accounting
unfolding add_counts
record_repository_ingest b s = record s {
  pending = add_counts (collect_repository_ingest b) s.pending;
}

unfoldable pub ingest_interval_or_default : Accounting → Duration
ingest_interval_or_default s =
    if leb_ℤ s.flush_interval (pos 0)
    then pos repository_ingest_flush_interval
    else s.flush_interval

abbrev pub is_flushed_recently : Bool → Time → Accounting → Bool
is_flushed_recently force now s =
    not force
    && not (is_zero s.last_flush_attempt)
    && ltb_ℤ (time_sub now s.last_flush_attempt) (ingest_interval_or_default s)

-- `if len(pending) == 0 { return nil }`
abbrev pub taken_of : Counts → Option Counts
taken_of [] = none
taken_of (e ∷ es) = some (e ∷ es)

-- Up to the write: nothing is written where nothing is pending.
unfoldable pub begin_flush : Bool → Time → Accounting → Accounting
unfolding ingest_interval_or_default
begin_flush force now s =
    if is_flushed_recently force now s
    then s
    else record s { last_flush_attempt = now; pending = []; in_flight = taken_of s.pending }

-- PostgreSQL's answers: `upsert` is the first error of the queued statements.
pub record IngestTransaction : Type 0 where
  pub begin_err : Option Error
  pub partitions : Option Error
  pub upsert : Option Error
  pub close : Option Error
  pub commit : Option Error

unfoldable pub write_repository_ingest : IngestTransaction → Option Error
write_repository_ingest tx =
    wrapped (text "begin repository ingestion transaction: ") tx.begin_err
    else_try wrapped (text "ensure repository ingestion partitions: ") tx.partitions
    else_try wrapped (text "upsert repository ingestion accounting: ") tx.upsert
    else_try wrapped (text "close repository ingestion batch: ") tx.close
    else_try wrapped (text "commit repository ingestion transaction: ") tx.commit

-- The end of a flush, by what it had taken and the error of its write. What a failed one had taken is
-- added to what is pending now.
unfoldable pub ended : Option Error → Option Counts → Accounting → Accounting
unfolding add_counts
ended err none s = record s { in_flight = none }
ended none (some taken) s = record s { in_flight = none; stored = s.stored ++ (taken ∷ []) }
ended (some e) (some taken) s = record s { in_flight = none; pending = add_counts taken s.pending }

unfoldable pub end_flush : IngestTransaction → Accounting → Accounting
unfolding ended
end_flush tx s = ended (write_repository_ingest tx) s.in_flight s

-- The error of flushRepositoryIngest.
abbrev pub flush_result : IngestTransaction → Accounting → Option Error
flush_result tx s = elim s.in_flight [ none ↦ none | some taken ↦ write_repository_ingest tx ]

-- A flush with no other write in between, such as the one on shutdown.
unfoldable pub flush_repository_ingest :
    Bool → Time → IngestTransaction → Accounting → Accounting × Option Error
unfolding begin_flush end_flush
flush_repository_ingest force now tx s =
    let s' = begin_flush force now s in (end_flush tx s', flush_result tx s')

-- What happens to the counts, in the order in which the locks are taken.
pub data Event : Type 0 where
  recorded : SampleBatch → Event
  flush_begins : Bool → Time → Event
  flush_ends : IngestTransaction → Event

-- A flush waits for the one that runs: it holds `ingestFlushMu`.
unfoldable pub begin_if_free : Option Counts → Bool → Time → Accounting → Accounting
unfolding begin_flush
begin_if_free none force now s = begin_flush force now s
begin_if_free (some taken) force now s = s

unfoldable pub step : Event → Accounting → Accounting
unfolding record_repository_ingest begin_if_free end_flush
step (recorded b) s = record_repository_ingest b s
step (flush_begins force now) s = begin_if_free s.in_flight force now s
step (flush_ends tx) s = end_flush tx s

unfoldable pub run : List Event → Accounting → Accounting
unfolding step
run [] s = s
run (e ∷ es) s = run es (step e s)
