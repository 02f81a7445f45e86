-- ===== src/Sink/Queue.antt =====
-- The buffered runtime telemetry of the sink (queueRuntime, takePendingRuntime and requeueRuntime of
-- postgresql/postgresql.go), each under `runtimeMu`.
use harry_performance_scrape.Prelude.{
  ℕ, ◌-◌, Bool, not, ◌&&◌, List, [], ◌∷◌, ◌++◌, if◌then◌else◌, length, take, drop, ltb,
}
use harry_performance_scrape.Prelude.Int.{pos, leb_ℤ, ltb_ℤ}
use harry_performance_scrape.Clock.{Time, Duration, time_sub, is_zero, minute}
use harry_performance_scrape.Samples.{RuntimeSample}

abbrev pub max_pending_runtime_samples : ℕ
max_pending_runtime_samples = 10000

abbrev pub runtime_telemetry_flush_interval : ℕ
runtime_telemetry_flush_interval = minute

-- `pending`, `last_flush_attempt` and `flush_interval` are fields of the sink; `stored` is what the
-- committed transactions have written to the table of runtime samples, in order.
pub record Telemetry : Type 0 where
  pub pending : List RuntimeSample
  pub last_flush_attempt : Time
  pub flush_interval : Duration
  pub stored : List RuntimeSample

-- `copy(p, p[dropped:])` leaves what stood behind the copied elements.
unfoldable pub shifted : ℕ → List RuntimeSample → List RuntimeSample
shifted dropped p = drop dropped p ++ drop (length p - dropped) p

unfoldable pub queue_runtime : List RuntimeSample → Telemetry → Telemetry
unfolding shifted
queue_runtime [] s = s
queue_runtime (x ∷ xs) s =
    let grown = s.pending ++ (x ∷ xs) in
    let dropped = length grown - max_pending_runtime_samples in
    record s {
      pending =
          if ltb 0 dropped then take max_pending_runtime_samples (shifted dropped grown) else grown;
    }

unfoldable pub flush_interval_or_default : Telemetry → Duration
flush_interval_or_default s =
    if leb_ℤ s.flush_interval (pos 0)
    then pos runtime_telemetry_flush_interval
    else s.flush_interval

abbrev pub is_too_early : Bool → Time → Telemetry → Bool
is_too_early force now s =
    not force
    && not (is_zero s.last_flush_attempt)
    && ltb_ℤ (time_sub now s.last_flush_attempt) (flush_interval_or_default s)

unfoldable pub take_pending_runtime : Bool → Time → Telemetry → Telemetry × List RuntimeSample
unfolding flush_interval_or_default
take_pending_runtime force now s = elim s.pending [
  | [] ↦ (s, [])
  | x ∷ xs ↦
      if is_too_early force now s
      then (s, [])
      else (record s { last_flush_attempt = now; pending = [] }, s.pending)
]

unfoldable pub requeue_runtime : List RuntimeSample → Telemetry → Telemetry
requeue_runtime [] s = s
requeue_runtime (x ∷ xs) s =
    let joined = (x ∷ xs) ++ s.pending in
    let dropped = length joined - max_pending_runtime_samples in
    record s { pending = if ltb 0 dropped then drop dropped joined else joined }
