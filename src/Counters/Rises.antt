-- ===== src/Counters/Rises.antt =====
-- What the increments of collector/operational.go add up to.
use harry_performance_scrape.Prelude.{
  ℕ, suc, ◌+◌, ◌-◌, ◌<◌, ◌≤◌, ◌≡◌, refl, inl, inr, Bool, true, false, some, List, [], ◌∷◌,
  if◌then◌else◌, arith, Bool-cases, ◌==◌, ltb, ◌&&◌, ap, ◌∙◌, or_else,
}
use harry_performance_scrape.Prelude.Int.{pos, pos_part, half64, sub64, wrap64, ◌-ℤ◌}
use harry_performance_scrape.Prelude.Dict.{lookup, lookup-insert}
use harry_performance_scrape.Clock.{Time}
use harry_performance_scrape.Counters.{
  OperationalCounterKey, counter_key_eq, OperationalCounterSnapshot, Counters, Delta, delta_since,
  operational_delta,
}

-- A row of a counter query: which counter, when, and its value, which Oracle never makes negative.
pub record Reading : Type 0 where
  pub key : OperationalCounterKey
  pub at : Time
  pub value : ℕ

-- What was reported for one counter in a run: the sum of its increments, and the number of resets.
pub record Report : Type 0 where
  pub total : ℕ
  pub resets : ℕ

abbrev pub counted : Delta → Report → Report
counted d r = record {
  total = pos_part (or_else d.delta (pos 0)) + r.total;
  resets = if d.reset then suc r.resets else r.resets;
}

abbrev observed : Reading → Counters → Counters × Delta
observed r m = operational_delta r.key r.at (pos r.value) m

pub reported : OperationalCounterKey → Counters → List Reading → Report
reported k m [] = record { total = 0; resets = 0 }
reported k m (r ∷ rs) =
    let rest = reported k (observed r m).0 rs in
    if r.key == k then counted (observed r m).1 rest else rest

-- The same from the values of that counter alone: every rise, and every fall.
pub rises : OperationalCounterKey → ℕ → List Reading → Report
rises k v [] = record { total = 0; resets = 0 }
rises k v (r ∷ rs) =
    let rest = rises k r.value rs in
    let others = rises k v rs in
    if r.key == k
    then record {
      total = r.value - v + rest.total;
      resets = if ltb r.value v then suc rest.resets else rest.resets;
    }
    else others

-- The readings of this counter come later and later, and are int64 values.
abbrev pub are_later : OperationalCounterKey → Time → List Reading → Bool
are_later k t [] = true
are_later k t (r ∷ rs) =
    let mine = are_later k r.at rs in
    let others = are_later k t rs in
    ltb r.value half64 && (if r.key == k then ltb t r.at && mine else others)

sub64_pos : (a b : ℕ) → b ≤ a → a < half64 → sub64 (pos a) (pos b) ≡ pos (a - b)
unfolding sub64 wrap64 ◌-ℤ◌
sub64_pos a b h k = ground arith

abbrev snapshot : Time → ℕ → OperationalCounterSnapshot
snapshot t v = record { collected_at = t; value = pos v }

delta_since_rise :
    (t at : Time) (v w : ℕ) (rest : Report)
    → t < at
    → w < half64
    → counted (delta_since (some (snapshot t v)) at (pos w)) rest ≡ record {
      total = w - v + rest.total;
      resets = if ltb w v then suc rest.resets else rest.resets;
    }
unfolding delta_since
delta_since_rise t at v w rest h k = ground (arith, sub64_pos w v)

lookup-observed_same :
    (k : OperationalCounterKey) (r : Reading) (m : Counters)
    → (r.key == k) ≡ true
    → lookup k (observed r m).0 ≡ some (snapshot r.at r.value)
unfolding operational_delta
lookup-observed_same k r m same = rw (lookup-insert m r.key (snapshot r.at r.value) k, same) refl

lookup-observed_other :
    (k : OperationalCounterKey) (r : Reading) (m : Counters)
    → (r.key == k) ≡ false
    → lookup k (observed r m).0 ≡ lookup k m
unfolding operational_delta
lookup-observed_other k r m other = rw (lookup-insert m r.key (snapshot r.at r.value) k, other) refl

observed_delta :
    (k : OperationalCounterKey) (r : Reading) (m : Counters) (t : Time) (v : ℕ)
    → (r.key == k) ≡ true
    → lookup k m ≡ some (snapshot t v)
    → (observed r m).1 ≡ delta_since (some (snapshot t v)) r.at (pos r.value)
unfolding operational_delta
observed_delta k r m t v same found =
    let here : r.key ≡ k = (counter_key_eq.same_iff r.key k).0 same in
    let there : lookup r.key m ≡ some (snapshot t v) = rw here found in
    ap (λ o. delta_since o r.at (pos r.value)) there

-- Where all readings are non-negative int64 values, for a counter that has a snapshot with a non-
-- negative value, and whose readings come at strictly increasing times after it: however the
-- readings of other counters interleave, the increments reported for it add up to its rises and the
-- resets are its falls, so that what it reports is a function of its own values alone.
pub reported-rises :
    (k : OperationalCounterKey) (rs : List Reading) (m : Counters) (t : Time) (v : ℕ)
    → lookup k m ≡ some (snapshot t v)
    → are_later k t rs ≡ true
    → reported k m rs ≡ rises k v rs
unfolding reported rises
reported-rises k [] m t v found h = refl
reported-rises k (r ∷ rs) m t v found h = elim (Bool-cases (r.key == k)) [
  | inl same ↦
      let small : r.value < half64 = ground arith in
      let later : t < r.at = ground arith in
      let rest : are_later k r.at rs ≡ true = ground arith in
      rw (same, reported, rises)
        (ap (λ d. counted d (reported k (observed r m).0 rs)) (observed_delta k r m t v same found)
          ∙ delta_since_rise t r.at v r.value (reported k (observed r m).0 rs) later small
          ∙ rw
              (reported-rises k rs (observed r m).0 r.at r.value (lookup-observed_same k r m same)
                rest)
              refl)
  | inr other ↦
      rw (other, reported, rises)
        (reported-rises k rs (observed r m).0 t v (lookup-observed_other k r m other ∙ found)
          (ground arith))
]
