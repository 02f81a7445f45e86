-- ===== src/Connection/History.antt =====
-- What the counters and times of a connection status record (collector/database.go).
use harry_performance_scrape.Prelude.{
  ℕ, ◌+◌, ◌<◌, ◌≤◌, ◌≡◌, refl, Bool, true, false, none, some, arith, List, [], ◌∷◌, length, ap, ◌∙◌,
}
use harry_performance_scrape.Prelude.Int.{pos, add64, half64, wrap64, ◌+ℤ◌}
use harry_performance_scrape.Connection.{Status, initial, is_quarantined}
use harry_performance_scrape.Connection.Lifecycle.{Event, fail, begin, finish, start, step, run}

-- Whether an event begins a probe in this status.
abbrev begins : Status → Event → Bool
begins s (begin now) = is_quarantined s.state
begins s _ = false

abbrev tally : Bool → ℕ
tally true = 1
tally false = 0

tally_le : (b : Bool) → tally b ≤ 1
tally_le true = omega arith
tally_le false = omega arith

-- How many probes begin in a run.
pub probes : Status → List Event → ℕ
probes s [] = 0
probes s (e ∷ es) = tally (begins s e) + probes (step s e) es

incremented : (n : ℕ) → n + 1 < half64 → add64 (pos n) (pos 1) ≡ pos (n + 1)
unfolding add64 wrap64 ◌+ℤ◌
incremented n h = ground arith

step-probe_attempts :
    (s : Status) (e : Event) (n : ℕ)
    → s.probe_attempts ≡ pos n
    → n + 1 < half64
    → (step s e).probe_attempts ≡ pos (n + tally (begins s e))
unfolding step
step-probe_attempts s (fail now e) n h k = ground arith
step-probe_attempts s (begin now) n h k = ground (arith, incremented n)
step-probe_attempts s (finish now started none) n h k = ground arith
step-probe_attempts s (finish now started (some e)) n h k = ground arith
step-probe_attempts s (start now) n h k = ground arith

run_probe_attempts :
    (s : Status) (es : List Event) (n : ℕ)
    → s.probe_attempts ≡ pos n
    → n + length es < half64
    → (run s es).probe_attempts ≡ pos (n + probes s es)
unfolding run probes
run_probe_attempts s [] n h k = ground arith
run_probe_attempts s (e ∷ es) n h k =
    let once : ℕ = tally (begins s e) in
    let le_one : once ≤ 1 = tally_le (begins s e) in
    run_probe_attempts (step s e) es (n + once) (step-probe_attempts s e n h (omega arith))
      (omega arith)
    ∙ ap pos (omega arith)

-- The attempt counter of a run is the number of probes that began in it, in fewer than 2^63 events:
-- a refused beginProbe is not counted.
pub run-probe_attempts :
    (es : List Event)
    → length es < half64
    → (run initial es).probe_attempts ≡ pos (probes initial es)
unfolding initial
run-probe_attempts es h = run_probe_attempts initial es 0 refl (omega arith) ∙ ap pos (omega arith)
