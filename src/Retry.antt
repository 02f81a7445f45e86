-- ===== src/Retry.antt =====
-- alertlog/alert_log_retry.go: when the alert log of a database is queried again after failures.
pub mod Backoff
use harry_performance_scrape.Prelude.{
  ℕ, zero, suc, ◌+◌, ◌-◌, ◌*◌, Bool, true, false, not, Option, none, some, String, string_eq,
  if◌then◌else◌, leb, or_else,
}
use harry_performance_scrape.Prelude.Dict.{Dict, lookup, insert, delete}
use harry_performance_scrape.Prelude.Int.{pos}
use harry_performance_scrape.Clock.{Time, Duration, time_add, is_zero, before, zero_time, minute}

abbrev pub initial_retry_backoff : ℕ
initial_retry_backoff = minute

abbrev pub max_retry_backoff : ℕ
max_retry_backoff = 15 * minute

-- `consecutive_failures` is a Go int; it does not wrap in the life of a process.
pub record RetryState : Type 0 where
  pub consecutive_failures : ℕ
  pub retry_after : Time

abbrev pub Tracker : Type 0
Tracker = Dict String RetryState

unfoldable pub should_retry : Tracker → String → Time → Bool × Time
should_retry t database now = elim (lookup database t) [
  | none ↦ (true, zero_time)
  | some state ↦
      if is_zero state.retry_after
      then (true, zero_time)
      else if not (before now state.retry_after)
      then (true, zero_time)
      else (false, state.retry_after)
]

-- The loop of recordFailure, with the rounds left. It breaks at the cap.
unfoldable pub doubled : ℕ → ℕ → ℕ → ℕ
doubled cap zero backoff = backoff
doubled cap (suc rounds) backoff =
    let rest = doubled cap rounds (backoff * 2) in if leb cap (backoff * 2) then cap else rest

abbrev pub no_state : RetryState
no_state = record { consecutive_failures = 0; retry_after = zero_time }

-- The state that recordFailure stores.
unfoldable pub failed_state : RetryState → Time → RetryState
unfolding doubled
failed_state s now = record {
  consecutive_failures = s.consecutive_failures + 1;
  retry_after =
      time_add now (pos (doubled max_retry_backoff s.consecutive_failures initial_retry_backoff));
}

unfoldable pub record_failure : Tracker → String → Time → Tracker × Time
unfolding failed_state
record_failure t database now =
    let s : RetryState = failed_state (or_else (lookup database t) no_state) now in
    (insert database s t, s.retry_after)

unfoldable pub record_success : Tracker → String → Tracker
record_success t database = delete database t
