-- ===== src/Retry/Backoff.antt =====
-- The backoff of alertlog/alert_log_retry.go in closed form, and what it does to later attempts.
use harry_performance_scrape.Prelude.{
  ℕ, zero, suc, ◌+◌, ◌-◌, ◌*◌, ◌^◌, ◌≤◌, ◌<◌, ◌≡◌, refl, min, true, false, some, List, [], ◌∷◌,
  String, string_eq, if◌then◌else◌, leb, ltb, arith, Bool-cases, inl, inr, length, ◌∙◌, ap, ==_refl,
  or_else, ◌++◌,
}
use native.Mathlib.Nat.{pow-suc}
use harry_performance_scrape.Prelude.Dict.{lookup, lookup-delete, lookup-insert_self}
use harry_performance_scrape.Clock.{Time, time_add, minute}
use harry_performance_scrape.Retry.{
  Tracker, RetryState, doubled, failed_state, record_failure, record_success, should_retry,
  no_state, max_retry_backoff, initial_retry_backoff,
}

pow_pos : (n : ℕ) → 1 ≤ 2 ^ n
pow_pos zero = omega arith
pow_pos (suc n) = rw pow-suc (omega (arith, pow_pos n))

le-mul : (x p : ℕ) → 1 ≤ p → x ≤ x * p
le-mul x p h = grind arith

-- The loop reaches the power of two, or the cap if that is smaller.
doubled_lem :
    (cap rounds backoff : ℕ)
    → backoff ≤ cap
    → doubled cap rounds backoff ≡ min cap (backoff * 2 ^ rounds)
unfolding doubled
doubled_lem cap zero backoff h = omega arith
doubled_lem cap (suc rounds) backoff h = rw pow-suc (elim (Bool-cases (leb cap (backoff * 2))) [
  | inl over ↦
      let c : cap ≤ backoff * 2 = ground arith in
      rw over (omega (arith, le-mul (backoff * 2) (2 ^ rounds) (pow_pos rounds)))
  | inr under ↦
      let c : backoff * 2 ≤ cap = ground arith in
      rw under (omega (arith, doubled_lem cap rounds (backoff * 2) c))
])

-- The failures of one database at these times, one after another.
pub failures : Tracker → String → List Time → Tracker
failures t database [] = t
failures t database (now ∷ rest) = failures (record_failure t database now).0 database rest

-- The state of a database after the failures.
failed : RetryState → List Time → RetryState
failed s [] = s
failed s (now ∷ rest) = failed (failed_state s now) rest

lookup-failures :
    (t : Tracker) (k : String) (s : RetryState) (now : Time) (ts : List Time)
    → or_else (lookup k t) no_state ≡ s
    → lookup k (failures t k (now ∷ ts)) ≡ some (failed s (now ∷ ts))
unfolding failures failed record_failure
lookup-failures t k s now [] h = rw (lookup-insert_self, h)
lookup-failures t k s now (next ∷ ts) h =
    lookup-failures (record_failure t k now).0 k (failed_state s now) next ts
      (rw (lookup-insert_self, h))

lookup-failures_last :
    (t : Tracker) (k : String) (s : RetryState) (ts : List Time) (now : Time)
    → or_else (lookup k t) no_state ≡ s
    → lookup k (failures t k (ts ++ (now ∷ []))) ≡ some (failed s (ts ++ (now ∷ [])))
lookup-failures_last t k s [] now h = lookup-failures t k s now [] h
lookup-failures_last t k s (x ∷ xs) now h = lookup-failures t k s x (xs ++ (now ∷ [])) h

failed_last :
    (s : RetryState) (ts : List Time) (now : Time)
    → failed s (ts ++ (now ∷ [])) ≡ failed_state (failed s ts) now
unfolding failed
failed_last s [] now = refl
failed_last s (t ∷ ts) now = failed_last (failed_state s t) ts now

failed_count :
    (s : RetryState) (ts : List Time)
    → (failed s ts).consecutive_failures ≡ s.consecutive_failures + length ts
unfolding failed failed_state
failed_count s [] = omega arith
failed_count s (t ∷ ts) = omega (arith, failed_count (failed_state s t) ts)

fresh : (t : Tracker) (k : String) → or_else (lookup k (record_success t k)) no_state ≡ no_state
unfolding record_success
fresh t k = rw (lookup-delete k k t, ==_refl k)

retry_of_count :
    (s : RetryState) (now : Time) (n : ℕ)
    → s.consecutive_failures ≡ n
    → (failed_state s now).retry_after ≡ now + min max_retry_backoff (minute * 2 ^ n)
unfolding failed_state time_add
retry_of_count s now n e =
    ap (λ (k : ℕ). now + doubled max_retry_backoff k initial_retry_backoff - 0) e
    ∙ omega (arith, doubled_lem max_retry_backoff n initial_retry_backoff (omega arith))

last_retry_after :
    (ts : List Time) (now : Time)
    → (failed no_state (ts ++ (now ∷ []))).retry_after
      ≡ now + min max_retry_backoff (minute * 2 ^ length ts)
last_retry_after ts now =
    rw (failed_last no_state ts now) (
      retry_of_count (failed no_state ts) now (length ts) (omega (arith, failed_count no_state ts)))

retry_by :
    (t : Tracker) (k : String) (s : RetryState) (at until : Time)
    → lookup k t ≡ some s
    → s.retry_after ≡ until
    → 0 < until
    → should_retry t k at ≡ (if ltb at until then (false, until) else (true, 0))
unfolding should_retry
retry_by t k s at until h e p = rw (h, should_retry) (ground arith)

-- After a success and then k + 1 failures in a row, the last at `now`, a database is left alone until
-- 2^k minutes after `now`, but at most 15 minutes, and is tried again from then on.
pub should_retry_after_failures :
    (t : Tracker) (database : String) (ts : List Time) (now at : Time)
    → let tried = failures (record_success t database) database (ts ++ (now ∷ [])) in
      let until = now + min max_retry_backoff (minute * 2 ^ length ts) in
      should_retry tried database at ≡ (if ltb at until then (false, until) else (true, 0))
should_retry_after_failures t database ts now at =
    retry_by _ database (failed no_state (ts ++ (now ∷ []))) at _
      (lookup-failures_last (record_success t database) database no_state ts now (fresh t database))
      (last_retry_after ts now) (omega (arith, le-mul minute (2 ^ length ts) (pow_pos (length ts))))
