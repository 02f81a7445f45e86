-- ===== src/Counters.antt =====
-- operationalDelta of collector/operational.go: cumulative counters become increments, with a reset
-- where a counter went back. It runs under `operationalMu`.
pub mod Rises
use harry_performance_scrape.Prelude.{
  ◌≡◌, ◌↔◌, refl, Bool, true, false, not, ◌&&◌, ◌||◌, Option, none, some, List, [], ◌∷◌, String,
  string_eq, ◌==◌, Comparable, if◌then◌else◌, arith,
}
use harry_performance_scrape.Prelude.Int.{ℤ, int_eq, sub64, ltb_ℤ}
use harry_performance_scrape.Prelude.Dict.{Dict, lookup, insert}
use harry_performance_scrape.Clock.{Time, Duration, time_sub, after}

pub record OperationalCounterKey : Type 0 where
  pub database : String
  pub kind : String
  pub inst_id : ℤ
  pub con_id : ℤ
  pub name : String

abbrev pub counter_key_same : OperationalCounterKey → OperationalCounterKey → Bool
counter_key_same a b =
    a.database == b.database
    && a.kind == b.kind
    && a.inst_id == b.inst_id
    && a.con_id == b.con_id
    && a.name == b.name

pub counter_key_iff : (a b : OperationalCounterKey) → (counter_key_same a b ≡ true) ↔ (a ≡ b)
counter_key_iff a b = ground (
  arith,
  string_eq.same_iff a.database b.database,
  string_eq.same_iff a.kind b.kind,
  int_eq.same_iff a.inst_id b.inst_id,
  int_eq.same_iff a.con_id b.con_id,
  string_eq.same_iff a.name b.name,
)

instance abbrev pub counter_key_eq : Comparable OperationalCounterKey
counter_key_eq = record { same = counter_key_same; same_iff = counter_key_iff }

pub record OperationalCounterSnapshot : Type 0 where
  pub collected_at : Time
  pub value : ℤ  -- int64

abbrev pub Counters : Type 0
Counters = Dict OperationalCounterKey OperationalCounterSnapshot

-- The three results. The interval in seconds stands as the duration.
pub record Delta : Type 0 where
  pub delta : Option ℤ
  pub interval : Option Duration
  pub reset : Bool

-- The results, from the snapshot that was there before.
unfoldable pub delta_since : Option OperationalCounterSnapshot → Time → ℤ → Delta
delta_since none at value = record { delta = none; interval = none; reset = false }
delta_since (some p) at value =
    if not (after at p.collected_at)
    then record { delta = none; interval = none; reset = false }
    else if ltb_ℤ value p.value
    then record { delta = none; interval = some (time_sub at p.collected_at); reset = true }
    else record {
      delta = some (sub64 value p.value);
      interval = some (time_sub at p.collected_at);
      reset = false;
    }

unfoldable pub operational_delta : OperationalCounterKey → Time → ℤ → Counters → Counters × Delta
unfolding delta_since
operational_delta key at value m = (
  insert key (record { collected_at = at; value = value }) m,
  delta_since (lookup key m) at value,
)
