-- ===== src/Sink/Ledger.antt =====
-- What becomes of the buffered telemetry of postgresql/postgresql.go: stored, pending, or dropped.
use harry_performance_scrape.Prelude.{
  ℕ, ◌+◌, ◌-◌, ◌≤◌, ◌<◌, ◌≡◌, refl, inl, inr, Bool, false, Option, none, some, List, [], ◌∷◌, ◌++◌,
  arith, length, take, drop, ltb, Bool-cases, length-append, length-drop, ap, ◌∙◌, sym,
}
use harry_performance_scrape.Clock.{Time}
use harry_performance_scrape.Errors.{Error}
use harry_performance_scrape.Samples.{RuntimeSample}
use harry_performance_scrape.Sink.Queue.{
  Telemetry, shifted, queue_runtime, take_pending_runtime, requeue_runtime, is_too_early,
  max_pending_runtime_samples,
}
use harry_performance_scrape.Sink.Delivery.{
  Transaction, Readings, completed, record_runtime_result, settle, write_samples,
}
use mathlib.Core.List.{append_assoc, append-nil}
use harry_performance_scrape.Prelude.{◌⊎◌, List-cases}

-- The newest samples, as many as fit.
abbrev pub newest : List RuntimeSample → List RuntimeSample
newest xs = drop (length xs - max_pending_runtime_samples) xs

abbrev pub IsBounded : Telemetry → Type 0
IsBounded s = length s.pending ≤ max_pending_runtime_samples

take_whole : (xs ys : List RuntimeSample) → take (length xs) (xs ++ ys) ≡ xs
take_whole [] ys = refl
take_whole (x ∷ xs) ys = ap (λ zs. x ∷ zs) (take_whole xs ys)

take-append : (n : ℕ) (xs ys : List RuntimeSample) → length xs ≡ n → take n (xs ++ ys) ≡ xs
take-append n xs ys h = rw (sym h) (take_whole xs ys)

pub newest_fits :
    (xs : List RuntimeSample) → length xs ≤ max_pending_runtime_samples → newest xs ≡ xs
newest_fits xs h =
    let none_over : length xs - max_pending_runtime_samples ≡ 0 = omega arith in rw none_over refl

pub length-newest-le : (xs : List RuntimeSample) → length (newest xs) ≤ max_pending_runtime_samples
length-newest-le xs = omega (arith, length-drop (length xs - max_pending_runtime_samples) xs)

-- Only the bound's overflow is dropped, from the front.
pub pending-queue_runtime :
    (xs : List RuntimeSample) (s : Telemetry)
    → IsBounded s
    → (queue_runtime xs s).pending ≡ newest (s.pending ++ xs)
unfolding queue_runtime shifted
pending-queue_runtime [] s h = rw append-nil (sym (newest_fits s.pending h))
pending-queue_runtime (x ∷ xs) s h =
    let grown : List RuntimeSample = s.pending ++ (x ∷ xs) in
    let over : ℕ = length grown - max_pending_runtime_samples in
    elim (Bool-cases (ltb 0 over)) [
      | inl full ↦ rw full (
          take-append max_pending_runtime_samples (drop over grown) _
            (ground (arith, length-drop over grown)))
      | inr fits ↦ let zero_over : over ≡ 0 = ground arith in rw (fits, zero_over) refl
    ]

pub pending-requeue_runtime :
    (xs : List RuntimeSample) (s : Telemetry)
    → IsBounded s
    → (requeue_runtime xs s).pending ≡ newest (xs ++ s.pending)
unfolding requeue_runtime
pending-requeue_runtime [] s h = sym (newest_fits s.pending h)
pending-requeue_runtime (x ∷ xs) s h =
    let over : ℕ = length ((x ∷ xs) ++ s.pending) - max_pending_runtime_samples in
    elim (Bool-cases (ltb 0 over)) [
      | inl full ↦ rw full refl
      | inr fits ↦ let zero_over : over ≡ 0 = ground arith in rw (fits, zero_over) refl
    ]

-- What has been stored, and then what is still pending.
abbrev pub log : Telemetry → List RuntimeSample
log s = s.stored ++ s.pending

-- takePendingRuntime takes all or nothing.
pub record Takes (s t : Telemetry) (taken : List RuntimeSample) : Type 0 where
  pub all : taken ++ t.pending ≡ s.pending
  pub kept : t.stored ≡ s.stored
  pub or_nothing : (taken ≡ []) ⊎ (t.pending ≡ [])

pub take_pending_runtime-Takes :
    (force : Bool) (now : Time) (s : Telemetry)
    → Takes s (take_pending_runtime force now s).0 (take_pending_runtime force now s).1
unfolding take_pending_runtime
take_pending_runtime-Takes force now s = elim (List-cases s.pending) [
  | inl none_left ↦
      rw (none_left, take_pending_runtime)
        (record { all = none_left; kept = refl; or_nothing = inl refl })
  | inr (x, xs, some_left) ↦
      rw (some_left, take_pending_runtime)
        (elim (Bool-cases (is_too_early force now s)) [
          | inl early ↦ rw early (record { all = some_left; kept = refl; or_nothing = inl refl })
          | inr due ↦
              rw due (record { all = rw append-nil some_left; kept = refl; or_nothing = inr refl })
        ])
]

abbrev pub listed : Option RuntimeSample → Readings → Option Error → List RuntimeSample
listed none at err = []
listed (some r) at err = completed r at.started at.finished err ∷ []

pub pending-record_runtime_result :
    (sample : Option RuntimeSample) (at : Readings) (err : Option Error) (s : Telemetry)
    → IsBounded s
    → (record_runtime_result sample at.started at.finished err s).pending
      ≡ newest (s.pending ++ listed sample at err)
unfolding record_runtime_result
pending-record_runtime_result none at err s h = rw append-nil (sym (newest_fits s.pending h))
pending-record_runtime_result (some r) at err s h =
    pending-queue_runtime (completed r at.started at.finished err ∷ []) s h

stored-queue_runtime :
    (xs : List RuntimeSample) (s : Telemetry) → (queue_runtime xs s).stored ≡ s.stored
unfolding queue_runtime
stored-queue_runtime [] s = refl
stored-queue_runtime (x ∷ xs) s = refl

pub stored-requeue_runtime :
    (xs : List RuntimeSample) (s : Telemetry) → (requeue_runtime xs s).stored ≡ s.stored
unfolding requeue_runtime
stored-requeue_runtime [] s = refl
stored-requeue_runtime (x ∷ xs) s = refl

pub stored-record_runtime_result :
    (sample : Option RuntimeSample) (at : Readings) (err : Option Error) (s : Telemetry)
    → (record_runtime_result sample at.started at.finished err s).stored ≡ s.stored
unfolding record_runtime_result
stored-record_runtime_result none at err s = refl
stored-record_runtime_result (some r) at err s =
    stored-queue_runtime (completed r at.started at.finished err ∷ []) s

pub length-listed-le :
    (sample : Option RuntimeSample) (at : Readings) (err : Option Error)
    → length (listed sample at err) ≤ 1
length-listed-le none at err = omega arith
length-listed-le (some r) at err = omega arith

-- Where the buffer has room for one more sample.
abbrev pub HasRoom : Telemetry → Type 0
HasRoom s = length s.pending < max_pending_runtime_samples

record_log :
    (sample : Option RuntimeSample) (at : Readings) (err : Option Error) (s : Telemetry)
    → HasRoom s
    → log (record_runtime_result sample at.started at.finished err s)
      ≡ log s ++ listed sample at err
record_log sample at err s room =
    let fits : length (s.pending ++ listed sample at err) ≤ max_pending_runtime_samples =
      omega
        (arith, length-append s.pending (listed sample at err), length-listed-le sample at err) in
    rw
      (
        stored-record_runtime_result sample at err s,
        pending-record_runtime_result sample at err s (omega arith),
        newest_fits (s.pending ++ listed sample at err) fits,
      )
      (sym (append_assoc s.stored s.pending (listed sample at err)))

pub shorter :
    (s t : Telemetry) (taken : List RuntimeSample)
    → Takes s t taken
    → length taken + length t.pending ≡ length s.pending
shorter s t taken h = sym (length-append taken t.pending) ∙ ap length h.all

pub committed_log :
    (s t : Telemetry) (taken : List RuntimeSample)
    → Takes s t taken
    → (t.stored ++ taken) ++ t.pending ≡ log s
committed_log s t taken h = append_assoc t.stored taken t.pending ∙ rw (h.kept, h.all) refl

pub requeued-pending :
    (s t : Telemetry) (taken : List RuntimeSample)
    → Takes s t taken
    → IsBounded s
    → (requeue_runtime taken t).pending ≡ s.pending
requeued-pending s t taken h bound =
    pending-requeue_runtime taken t (omega (arith, shorter s t taken h))
    ∙ ap newest h.all
    ∙ newest_fits s.pending bound

pub requeued_log :
    (s t : Telemetry) (taken : List RuntimeSample)
    → Takes s t taken
    → IsBounded s
    → log (requeue_runtime taken t) ≡ log s
requeued_log s t taken h bound =
    rw (stored-requeue_runtime taken t, requeued-pending s t taken h bound, h.kept) refl

log-settle :
    (sample : Option RuntimeSample) (at : Readings) (taken : List RuntimeSample)
    (err : Option Error) (s t : Telemetry)
    → Takes s t taken
    → HasRoom s
    → log (settle sample at taken err t) ≡ log s ++ listed sample at err
unfolding settle
log-settle sample at taken none s t h room =
    record_log sample at none (record t { stored = t.stored ++ taken })
      (omega (arith, shorter s t taken h))
    ∙ ap (λ l. l ++ listed sample at none) (committed_log s t taken h)
log-settle sample at taken (some e) s t h room =
    let same : (requeue_runtime taken t).pending ≡ s.pending =
      requeued-pending s t taken h (omega arith) in
    record_log sample at (some e) (requeue_runtime taken t) (rw same room)
    ∙ ap (λ l. l ++ listed sample at (some e)) (requeued_log s t taken h (omega arith))

-- One call of WriteSamples, with what it is given and what it meets.
pub record Delivery : Type 0 where
  pub sample : Option RuntimeSample
  pub at : Readings
  pub tx : Transaction

abbrev pub deliver : Delivery → Telemetry → Telemetry × Option Error
deliver d s = write_samples d.sample d.at d.tx s

-- The sample that a delivery adds says whether its transaction was committed.
abbrev pub reported : Delivery → Telemetry → List RuntimeSample
reported d s = listed d.sample d.at (deliver d s).1

pub log-deliver :
    (d : Delivery) (s : Telemetry) → HasRoom s → log (deliver d s).0 ≡ log s ++ reported d s
unfolding write_samples
log-deliver d s room =
    log-settle d.sample d.at _ _ s _ (take_pending_runtime-Takes false d.at.taken s) room
