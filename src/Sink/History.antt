-- ===== src/Sink/History.antt =====
-- A whole life of the sink's telemetry buffer: writes that succeed and fail, and the flush at the end
-- (WriteSamples and Close of postgresql/postgresql.go).
use harry_performance_scrape.Prelude.{
  ◌+◌, ◌-◌, ◌≤◌, ◌≡◌, refl, inl, inr, true, false, Option, none, some, List, [], ◌∷◌, ◌++◌, arith,
  length, length-append, length-drop, ap, ◌∙◌, List-cases,
}
use mathlib.Core.List.{append_assoc, append-nil}
use harry_performance_scrape.Clock.{Time}
use harry_performance_scrape.Errors.{Error}
use harry_performance_scrape.Samples.{RuntimeSample}
use harry_performance_scrape.Sink.Queue.{
  Telemetry, requeue_runtime, take_pending_runtime, max_pending_runtime_samples,
}
use harry_performance_scrape.Sink.Delivery.{
  Transaction, Readings, settle, write_samples, flush_error, flushed, flush_runtime,
  record_runtime_result,
}
use harry_performance_scrape.Sink.Ledger.{
  newest, length-newest-le, IsBounded, log, Takes, take_pending_runtime-Takes, listed,
  length-listed-le, pending-record_runtime_result, shorter, requeued-pending, requeued_log,
  Delivery, deliver, reported, log-deliver, stored-record_runtime_result, stored-requeue_runtime,
  committed_log,
}

length-newest-le_self : (xs : List RuntimeSample) → length (newest xs) ≤ length xs
length-newest-le_self xs = omega (arith, length-drop (length xs - max_pending_runtime_samples) xs)

record-length :
    (sample : Option RuntimeSample) (at : Readings) (err : Option Error) (s : Telemetry)
    → IsBounded s
    → length (record_runtime_result sample at.started at.finished err s).pending
      ≤ length s.pending + 1
record-length sample at err s h = rw (pending-record_runtime_result sample at err s h) (
    omega (
      arith,
      length-newest-le_self (s.pending ++ listed sample at err),
      length-append s.pending (listed sample at err),
      length-listed-le sample at err,
    ))

settle-length :
    (sample : Option RuntimeSample) (at : Readings) (taken : List RuntimeSample)
    (err : Option Error) (s t : Telemetry)
    → Takes s t taken
    → IsBounded s
    → length (settle sample at taken err t).pending ≤ length s.pending + 1
unfolding settle
settle-length sample at taken none s t h bound =
    let le : length t.pending ≤ length s.pending = omega (arith, shorter s t taken h) in
    omega
      (arith, record-length sample at none (record t { stored = t.stored ++ taken }) (omega arith))
settle-length sample at taken (some e) s t h bound =
    let same : length (requeue_runtime taken t).pending ≡ length s.pending =
      ap length (requeued-pending s t taken h bound) in
    omega (arith, record-length sample at (some e) (requeue_runtime taken t) (omega arith))

deliver-length :
    (d : Delivery) (s : Telemetry)
    → IsBounded s
    → length (deliver d s).0.pending ≤ length s.pending + 1
unfolding write_samples
deliver-length d s bound =
    settle-length d.sample d.at _ _ s _ (take_pending_runtime-Takes false d.at.taken s) bound

-- The deliveries one after another, and the samples that they add.
pub deliveries : List Delivery → Telemetry → Telemetry
deliveries [] s = s
deliveries (d ∷ ds) s = deliveries ds (deliver d s).0

pub reports : List Delivery → Telemetry → List RuntimeSample
reports [] s = []
reports (d ∷ ds) s = reported d s ++ reports ds (deliver d s).0

-- However the writes fare, no telemetry is lost, doubled or reordered while the buffer has room: what
-- is stored and then what is pending is what it was, followed by one report for each write.
pub log-deliveries :
    (ds : List Delivery) (s : Telemetry)
    → length s.pending + length ds ≤ max_pending_runtime_samples
    → log (deliveries ds s) ≡ log s ++ reports ds s
unfolding deliveries reports
log-deliveries [] s h = rw append-nil refl
log-deliveries (d ∷ ds) s h =
    log-deliveries ds (deliver d s).0 (omega (arith, deliver-length d s (omega arith)))
    ∙ ap (λ l. l ++ reports ds (deliver d s).0) (log-deliver d s (omega arith))
    ∙ append_assoc (log s) (reported d s) (reports ds (deliver d s).0)

settle-IsBounded :
    (sample : Option RuntimeSample) (at : Readings) (taken : List RuntimeSample)
    (err : Option Error) (s t : Telemetry)
    → Takes s t taken
    → IsBounded s
    → IsBounded (settle sample at taken err t)
unfolding settle
settle-IsBounded sample at taken none s t h bound =
    let u : Telemetry = record t { stored = t.stored ++ taken } in
    let le : length t.pending ≤ length s.pending = omega (arith, shorter s t taken h) in
    rw (pending-record_runtime_result sample at none u (omega arith))
      (length-newest-le (t.pending ++ listed sample at none))
settle-IsBounded sample at taken (some e) s t h bound =
    let same : length (requeue_runtime taken t).pending ≡ length s.pending =
      ap length (requeued-pending s t taken h bound) in
    rw (pending-record_runtime_result sample at (some e) (requeue_runtime taken t) (omega arith))
      (length-newest-le ((requeue_runtime taken t).pending ++ listed sample at (some e)))

-- However long PostgreSQL is away, at most 10000 samples are pending.
pub deliveries-IsBounded :
    (ds : List Delivery) (s : Telemetry) → IsBounded s → IsBounded (deliveries ds s)
unfolding deliveries write_samples
deliveries-IsBounded [] s h = h
deliveries-IsBounded (d ∷ ds) s h =
    deliveries-IsBounded ds (deliver d s).0
      (settle-IsBounded d.sample d.at _ _ s _ (take_pending_runtime-Takes false d.at.taken s) h)

settle_fails :
    (sample : Option RuntimeSample) (at : Readings) (taken : List RuntimeSample)
    (err : Option Error) (s t : Telemetry) (e : Error)
    → Takes s t taken
    → IsBounded s
    → err ≡ some e
    → ((settle sample at taken err t).stored ≡ s.stored)
      × ((settle sample at taken err t).pending ≡ newest (s.pending ++ listed sample at (some e)))
unfolding settle
settle_fails sample at taken err s t e h bound fails =
    let kept : (requeue_runtime taken t).pending ≡ s.pending = requeued-pending s t taken h bound in
    let le : IsBounded (requeue_runtime taken t) = rw kept bound in
    rw (fails, settle)
      (
        stored-record_runtime_result sample at (some e) (requeue_runtime taken t)
            ∙ stored-requeue_runtime taken t
            ∙ h.kept,
        pending-record_runtime_result sample at (some e) (requeue_runtime taken t) le
            ∙ ap (λ p. newest (p ++ listed sample at (some e))) kept,
      )

-- A write that fails stores nothing, and drops at most the oldest samples to make room for its own.
pub write_samples_fails :
    (sample : Option RuntimeSample) (at : Readings) (tx : Transaction) (s : Telemetry) (e : Error)
    → IsBounded s
    → (write_samples sample at tx s).1 ≡ some e
    → ((write_samples sample at tx s).0.stored ≡ s.stored)
      × ((write_samples sample at tx s).0.pending ≡ newest (s.pending ++ listed sample at (some e)))
unfolding write_samples
write_samples_fails sample at tx s e bound fails =
    settle_fails sample at _ _ s _ e (take_pending_runtime-Takes false at.taken s) bound fails

flushed-log :
    (taken : List RuntimeSample) (err : Option Error) (s t : Telemetry)
    → Takes s t taken
    → IsBounded s
    → (log (flushed taken err t).0 ≡ log s)
      × ((flushed taken err t).1 ≡ none → (flushed taken err t).0.pending ≡ t.pending)
unfolding flushed
flushed-log [] err s t h bound = (rw (h.kept, h.all) refl, λ k. refl)
flushed-log (x ∷ xs) none s t h bound = (committed_log s t (x ∷ xs) h, λ k. refl)
flushed-log (x ∷ xs) (some e) s t h bound =
    (requeued_log s t (x ∷ xs) h bound, λ k. absurd (ground arith))

forced_empties : (now : Time) (s : Telemetry) → (take_pending_runtime true now s).0.pending ≡ []
unfolding take_pending_runtime
forced_empties now s = elim (List-cases s.pending) [
  | inl none_left ↦ rw (none_left, take_pending_runtime) none_left
  | inr (x, xs, some_left) ↦ rw (some_left, take_pending_runtime) refl
]

-- The flush on shutdown loses nothing, and where it reports no error nothing is pending.
pub flush_runtime-log :
    (now : Time) (tx : Transaction) (s : Telemetry)
    → IsBounded s
    → (log (flush_runtime now tx s).0 ≡ log s)
      × ((flush_runtime now tx s).1 ≡ none → (flush_runtime now tx s).0.pending ≡ [])
unfolding flush_runtime
flush_runtime-log now tx s bound =
    let (same, empties) =
      flushed-log (take_pending_runtime true now s).1
        (flush_error tx (take_pending_runtime true now s).1) s (take_pending_runtime true now s).0
        (take_pending_runtime-Takes true now s) bound in
    (same, λ k. empties k ∙ forced_empties now s)
