-- ===== src/Consumers/Workload.antt =====
-- What recordSQLConsumerDeltas of collector/performance.go counts as the time of a statement.
use harry_performance_scrape.Prelude.{
  ℕ, ◌+◌, ◌-◌, ◌<◌, ◌≡◌, refl, inl, inr, true, false, some, List, [], ◌∷◌, String, string_eq, ◌==◌,
  if◌then◌else◌, arith, Bool-cases, Option-cases, or_else, ap, ◌∙◌, All, sym, subst,
}
use harry_performance_scrape.Prelude.Int.{
  ℤ, pos, negsuc, pos_part, neg_part, half64, add64, sub64, wrap64, ◌+ℤ◌, ◌-ℤ◌,
}
use harry_performance_scrape.Prelude.Dict.{lookup, lookup-insert, lookup-insert_self}
use harry_performance_scrape.Samples.Performance.{SqlSample}
use harry_performance_scrape.Consumers.{
  SqlCounterKey, sql_counter_key_eq, SqlCounterValues, no_values, int64_value,
  sql_counter_values_from_sample, monotonic_delta, sql_counter_delta, add, Snapshot, Deltas,
  counter_key, accumulated, record_sample, record_samples,
}

-- The time accumulated for a statement.
abbrev pub elapsed : String → Deltas → ℤ
elapsed k ds = (or_else (lookup k ds) no_values).elapsed_time_micro

-- The time of a sample, and of a cursor in the snapshot from before.
abbrev pub time_of : SqlSample → ℕ
time_of s = pos_part (int64_value s.elapsed_time_micro)

abbrev pub time_before : Snapshot → SqlCounterKey → ℕ
time_before p k = pos_part (or_else (lookup k p) no_values).elapsed_time_micro

-- Oracle's counters are int64 values that are not negative.
abbrev pub IsCounter : ℤ → Type 0
IsCounter z = (neg_part z ≡ 0) × (pos_part z < half64)

-- The rises of the cursors of one statement, each since the snapshot; a cursor that is new counts
-- whole, and one that went back not at all.
unfoldable pub gains : Snapshot → String → List SqlSample → ℕ
gains p k [] = 0
gains p k (s ∷ ss) =
    let rest = gains p k ss in
    if s.sql_id == k then time_of s - time_before p (counter_key s) + rest else rest

monotonic_pos :
    (a b : ℤ) → IsCounter a → IsCounter b → monotonic_delta a b ≡ pos (pos_part a - pos_part b)
unfolding monotonic_delta sub64 wrap64 ◌-ℤ◌
monotonic_pos (pos a) (pos b) h k = ground arith
monotonic_pos (pos a) (negsuc b) h k = absurd (ground arith)
monotonic_pos (negsuc a) b h k = absurd (ground arith)

add_pos : (a b : ℕ) → a + b < half64 → add64 (pos a) (pos b) ≡ pos (a + b)
unfolding add64 wrap64 ◌+ℤ◌
add_pos a b h = ground arith

whole : (z : ℤ) → IsCounter z → z ≡ pos (pos_part z - 0)
whole (pos n) h = ap pos (omega arith)
whole (negsuc n) h = absurd (ground arith)

-- Each cursor of the snapshot has a counter for its time.
abbrev pub HasCounters : Snapshot → Type 0
HasCounters p = (k : SqlCounterKey) → IsCounter (or_else (lookup k p) no_values).elapsed_time_micro

delta_time :
    (p : Snapshot) (s : SqlSample)
    → HasCounters p
    → IsCounter (int64_value s.elapsed_time_micro)
    → (sql_counter_delta
        (sql_counter_values_from_sample s)
        (lookup (counter_key s) p)).elapsed_time_micro
      ≡ pos (time_of s - time_before p (counter_key s))
unfolding sql_counter_delta sql_counter_values_from_sample
delta_time p s before now = elim (Option-cases (lookup (counter_key s) p)) [
  | inl new ↦ rw (new, sql_counter_delta) (whole (int64_value s.elapsed_time_micro) now)
  | inr (v, old) ↦
      rw (old, sql_counter_delta)
        (monotonic_pos (int64_value s.elapsed_time_micro) v.elapsed_time_micro now
          (rw old at (before (counter_key s))))
]

elapsed-accumulated :
    (k : String) (delta : SqlCounterValues) (ds : Deltas)
    → elapsed k (accumulated k delta ds) ≡ add64 (elapsed k ds) delta.elapsed_time_micro
unfolding add
elapsed-accumulated k delta ds =
    ap (λ o. (or_else o no_values).elapsed_time_micro)
      (lookup-insert_self k (add (or_else (lookup k ds) no_values) delta) ds)

elapsed-accumulated_other :
    (k j : String) (delta : SqlCounterValues) (ds : Deltas)
    → (j == k) ≡ false
    → elapsed k (accumulated j delta ds) ≡ elapsed k ds
elapsed-accumulated_other k j delta ds other =
    let found : lookup k (accumulated j delta ds) ≡ lookup k ds =
      rw (lookup-insert ds j (add (or_else (lookup j ds) no_values) delta) k, other) refl in
    ap (λ o. (or_else o no_values).elapsed_time_micro) found

record_sample_mine :
    (p cur : Snapshot) (k : String) (s : SqlSample) (ds : Deltas) (n : ℕ)
    → HasCounters p
    → IsCounter (int64_value s.elapsed_time_micro)
    → (k == "") ≡ false
    → (s.sql_id == k) ≡ true
    → elapsed k ds ≡ pos n
    → n + (time_of s - time_before p (counter_key s)) < half64
    → elapsed k (record_sample (some p) s (cur, ds)).1
      ≡ pos (n + (time_of s - time_before p (counter_key s)))
unfolding record_sample
record_sample_mine p cur k s ds n before now named same at fits =
    let id : s.sql_id ≡ k = (string_eq.same_iff s.sql_id k).0 same in
    let given : (s.sql_id == "") ≡ false = rw id named in
    let delta : SqlCounterValues =
      sql_counter_delta (sql_counter_values_from_sample s) (lookup (counter_key s) p) in
    let sum : elapsed k (accumulated s.sql_id delta ds)
        ≡ add64 (elapsed k ds) delta.elapsed_time_micro =
      subst
        (λ j. elapsed k (accumulated j delta ds) ≡ add64 (elapsed k ds) delta.elapsed_time_micro)
        (sym id) (elapsed-accumulated k delta ds) in
    rw (given, record_sample)
      (sum
        ∙ rw (at, delta_time p s before now)
            (add_pos n (time_of s - time_before p (counter_key s)) fits))

record_sample_other :
    (p cur : Snapshot) (k : String) (s : SqlSample) (ds : Deltas)
    → (s.sql_id == k) ≡ false
    → elapsed k (record_sample (some p) s (cur, ds)).1 ≡ elapsed k ds
unfolding record_sample
record_sample_other p cur k s ds other = elim (Bool-cases (s.sql_id == "")) [
  | inl nameless ↦ rw (nameless, record_sample) refl
  | inr named ↦ rw (named, record_sample) (elapsed-accumulated_other k s.sql_id _ ds other)
]

-- Where there is a snapshot from before, the time accumulated for a statement with an id grows by the
-- rises of its cursors since that snapshot: a cursor that is new counts whole and one that went back
-- adds nothing, for counters and a sum before that are not negative and sums within int64.
pub elapsed-record_samples :
    (p cur : Snapshot) (k : String) (ss : List SqlSample) (ds : Deltas) (n : ℕ)
    → HasCounters p
    → All (λ s. IsCounter (int64_value s.elapsed_time_micro)) ss
    → (k == "") ≡ false
    → elapsed k ds ≡ pos n
    → n + gains p k ss < half64
    → elapsed k (record_samples (some p) ss (cur, ds)).1 ≡ pos (n + gains p k ss)
unfolding record_samples gains
elapsed-record_samples p cur k [] ds n before now named at fits = at ∙ ap pos (omega arith)
elapsed-record_samples p cur k (s ∷ ss) ds n before (now, nows) named at fits =
    let next : Snapshot × Deltas = record_sample (some p) s (cur, ds) in
    elim (Bool-cases (s.sql_id == k)) [
      | inl same ↦
          let gain : ℕ = time_of s - time_before p (counter_key s) in
          let room : n + (gain + gains p k ss) < half64 = rw (same, gains) at fits in
          rw (same, gains)
            (elapsed-record_samples p next.0 k ss next.1 (n + gain) before nows named
                (record_sample_mine p cur k s ds n before now named same at (omega arith))
                (omega arith)
              ∙ ap pos (omega arith))
      | inr other ↦
          rw (other, gains)
            (elapsed-record_samples p next.0 k ss next.1 n before nows named
              (record_sample_other p cur k s ds other ∙ at) (rw (other, gains) at fits))
    ]
