-- ===== src/Sink/Delivery.antt =====
-- How WriteSamples and flushRuntime of postgresql/postgresql.go deliver the buffered telemetry. The
-- other tables of WriteSamples, its ingestion accounting and its retention are not part of this state.
use harry_performance_scrape.Prelude.{
  true, false, not, Option, none, some, List, [], ◌∷◌, ◌++◌, if◌then◌else◌, is_some,
}
use harry_performance_scrape.Prelude.Int.{pos, ltb_ℤ}
use harry_performance_scrape.Clock.{Time, Duration, time_sub}
use harry_performance_scrape.Texts.{Text, text, truncated}
use harry_performance_scrape.Errors.{Error, wrap_error}
use harry_performance_scrape.Samples.{RuntimeSample}
use harry_performance_scrape.Sink.Queue.{
  Telemetry, queue_runtime, take_pending_runtime, requeue_runtime,
}

-- PostgreSQL's answers during one transaction. `writes` is the first error of the tables of the batch.
pub record Transaction : Type 0 where
  pub begin_err : Option Error
  pub partitions : Option Error
  pub writes : Option Error
  pub runtime : Option Error
  pub commit : Option Error

-- The clock during WriteSamples: at its start, at takePendingRuntime, and at its end.
pub record Readings : Type 0 where
  pub started : Time
  pub taken : Time
  pub finished : Time

-- `if err != nil { return err }`, and then the rest.
infixr 6 ◌else_try◌
abbrev pub ◌else_try◌ : Option Error → Option Error → Option Error
none else_try rest = rest
some e else_try rest = some e

abbrev pub wrapped : Text → Option Error → Option Error
wrapped prefix none = none
wrapped prefix (some e) = some (wrap_error prefix e)

-- writeRuntimeSamples asks PostgreSQL nothing where there is nothing to write.
abbrev pub write_runtime_samples : Transaction → List RuntimeSample → Option Error
write_runtime_samples tx [] = none
write_runtime_samples tx (x ∷ xs) = tx.runtime

abbrev pub truncated_message : Option Error → Option Text
truncated_message none = none
truncated_message (some e) = some (truncated 2000 e.message)

abbrev pub at_least_zero : Duration → Duration
at_least_zero d = if ltb_ℤ d (pos 0) then pos 0 else d

-- The sample that recordRuntimeResult queues.
unfoldable pub completed : RuntimeSample → Time → Time → Option Error → RuntimeSample
completed r started finished err = record r {
  finished_at = finished;
  observed_at = finished;
  postgresql_write_duration = time_sub finished started;
  total_duration = at_least_zero (time_sub finished r.scheduled_at);
  postgresql_write_success = not (is_some err);
  postgresql_error_message = elim err [
    | none ↦ r.postgresql_error_message
    | some e ↦ truncated_message (some e)
  ];
}

unfoldable pub record_runtime_result :
    Option RuntimeSample → Time → Time → Option Error → Telemetry → Telemetry
unfolding completed
record_runtime_result none started finished err s = s
record_runtime_result (some r) started finished err s =
    queue_runtime (completed r started finished err ∷ []) s

-- The error of the transaction of WriteSamples.
unfoldable pub transaction_error : Transaction → List RuntimeSample → Option Error
transaction_error tx taken =
    wrapped (text "begin postgresql transaction: ") tx.begin_err
    else_try tx.partitions
    else_try tx.writes
    else_try write_runtime_samples tx taken
    else_try wrapped (text "commit postgresql transaction: ") tx.commit

-- The deferred function of WriteSamples, and its end: the taken samples are requeued unless they were
-- committed, and then the batch's own sample is queued.
unfoldable pub settle :
    Option RuntimeSample → Readings → List RuntimeSample → Option Error → Telemetry → Telemetry
unfolding record_runtime_result
settle sample at taken none s =
    record_runtime_result sample at.started at.finished none
      (record s { stored = s.stored ++ taken })
settle sample at taken (some e) s =
    record_runtime_result sample at.started at.finished (some e) (requeue_runtime taken s)

-- WriteSamples, for the batch's runtime sample.
unfoldable pub write_samples :
    Option RuntimeSample → Readings → Transaction → Telemetry → Telemetry × Option Error
unfolding settle transaction_error
write_samples sample at tx s =
    let (s', taken) = take_pending_runtime false at.taken s in
    (settle sample at taken (transaction_error tx taken) s', transaction_error tx taken)

-- The transaction of flushRuntime, which writes no other table.
unfoldable pub flush_error : Transaction → List RuntimeSample → Option Error
flush_error tx taken =
    wrapped (text "begin runtime telemetry flush: ") tx.begin_err
    else_try wrapped (text "ensure runtime telemetry partitions: ") tx.partitions
    else_try write_runtime_samples tx taken
    else_try wrapped (text "commit runtime telemetry flush: ") tx.commit

-- It returns at once where nothing was taken.
unfoldable pub flushed : List RuntimeSample → Option Error → Telemetry → Telemetry × Option Error
flushed [] err s = (s, none)
flushed (x ∷ xs) none s = (record s { stored = s.stored ++ (x ∷ xs) }, none)
flushed (x ∷ xs) (some e) s = (requeue_runtime (x ∷ xs) s, some e)

-- flushRuntime, which Close calls.
unfoldable pub flush_runtime : Time → Transaction → Telemetry → Telemetry × Option Error
unfolding flushed flush_error
flush_runtime now tx s =
    let (s', taken) = take_pending_runtime true now s in flushed taken (flush_error tx taken) s'
