-- ===== src/Gates/Spacing.antt =====
-- How often a database is collected (shouldCollectOperational of collector/operational.go and
-- shouldCollectSQLDetails of collector/performance.go).
use harry_performance_scrape.Prelude.{
  ◌≤◌, ◌≡◌, refl, ◌⊎◌, inl, inr, Bool, true, false, Option, none, some, List, [], ◌∷◌, String,
  string_eq, not, if◌then◌else◌, arith, Bool-cases, ◌==◌, subst, ◌∙◌,
}
use harry_performance_scrape.Prelude.Dict.{Dict, lookup, insert, lookup-insert}
use harry_performance_scrape.Clock.{Time, Duration, time_add, before}
use harry_performance_scrape.Config.Operational
use harry_performance_scrape.Config.Operational.{OperationalConfig}
use harry_performance_scrape.Config.Plans
use harry_performance_scrape.Config.Plans.{SqlPlanConfig}
use harry_performance_scrape.Gates.{is_due, should_collect_operational, should_collect_sql_details}

-- One of the two gates: a state, a question and its answer.
abbrev pub Gate : Type 0
Gate = Dict String Time → String → Time → Dict String Time × Bool

-- What both gates promise: an accepted call is recorded and due, and any other changes nothing.
pub record IsGate (interval : Duration) (gate : Gate) : Type 0 where
  pub step :
      (last : Dict String Time) (database : String) (at : Time)
      → (((gate last database at).1 ≡ true)
          × ((gate last database at).0 ≡ insert database at last)
          × (is_due interval last database at ≡ true))
        ⊎ (((gate last database at).1 ≡ false) × ((gate last database at).0 ≡ last))

operational-IsGate :
    (c : OperationalConfig) → IsGate (Operational.get_interval c) (should_collect_operational c)
unfolding should_collect_operational
operational-IsGate c = record { step = λ last database at. ground arith }

sql_details-IsGate :
    (c : SqlPlanConfig) → IsGate (Plans.get_interval c) (should_collect_sql_details c)
unfolding should_collect_sql_details
sql_details-IsGate c = record { step = λ last database at. ground arith }

-- The times at which one database is accepted, in a run of calls about any databases.
pub accepted : Gate → String → Dict String Time → List (String × Time) → List Time
accepted gate k last [] = []
accepted gate k last ((database, at) ∷ calls) =
    let rest = accepted gate k (gate last database at).0 calls in
    if database == k then (if (gate last database at).1 then at ∷ rest else rest) else rest

-- Each time is at least the interval after the one before it.
abbrev pub SpacedFrom : Duration → Option Time → List Time → Type 0
SpacedFrom interval t [] = Unit
SpacedFrom interval none (at ∷ ts) = SpacedFrom interval (some at) ts
SpacedFrom interval (some t) (at ∷ ts) =
    (time_add t interval ≤ at) × SpacedFrom interval (some at) ts

due-le :
    (interval : Duration) (last : Dict String Time) (k : String) (at t : Time)
    → is_due interval last k at ≡ true
    → lookup k last ≡ some t
    → time_add t interval ≤ at
unfolding is_due
due-le interval last k at t due found =
    let now_due : is_due interval last k at ≡ true = due in
    let read : is_due interval last k at ≡ not (before at (time_add t interval)) =
      rw (found, is_due) refl in
    ground arith

spaced_next :
    (interval : Duration) (last : Dict String Time) (k : String) (o : Option Time) (at : Time)
    (ts : List Time)
    → lookup k last ≡ o
    → is_due interval last k at ≡ true
    → SpacedFrom interval (some at) ts
    → SpacedFrom interval o (at ∷ ts)
spaced_next interval last k none at ts found due rest = rest
spaced_next interval last k (some t) at ts found due rest =
    (due-le interval last k at t due found, rest)

same-is_due :
    (interval : Duration) (last : Dict String Time) (database k : String) (at : Time)
    → (database == k) ≡ true
    → is_due interval last database at ≡ true
    → is_due interval last k at ≡ true
same-is_due interval last database k at same due =
    subst (λ j. is_due interval last j at ≡ true) ((string_eq.same_iff database k).0 same) due

lookup-accepted :
    (last : Dict String Time) (database k : String) (at : Time)
    → (database == k) ≡ true
    → lookup k (insert database at last) ≡ some at
lookup-accepted last database k at same = rw (lookup-insert last database at k, same) refl

lookup-other :
    (last : Dict String Time) (database k : String) (at : Time)
    → (database == k) ≡ false
    → lookup k (insert database at last) ≡ lookup k last
lookup-other last database k at other = rw (lookup-insert last database at k, other) refl

pub accepted_spaced :
    (interval : Duration) (gate : Gate)
    → IsGate interval gate
    → (k : String) (calls : List (String × Time)) (last : Dict String Time) (o : Option Time)
    → lookup k last ≡ o
    → SpacedFrom interval o (accepted gate k last calls)
unfolding accepted
accepted_spaced interval gate g k [] last o found = tt
accepted_spaced interval gate g k ((database, at) ∷ calls) last o found =
    elim (g.step last database at) [
      | inr (refused, kept) ↦ elim (Bool-cases (database == k)) [
        | inl same ↦
            rw (same, refused, kept, accepted)
              (accepted_spaced interval gate g k calls last o found)
        | inr other ↦
            rw (other, kept, accepted) (accepted_spaced interval gate g k calls last o found)
      ]
      | inl (let_in, stored, due) ↦ elim (Bool-cases (database == k)) [
        | inl same ↦
            rw (same, let_in, accepted)
              (spaced_next interval last k o at _ found
                (same-is_due interval last database k at same due)
                (accepted_spaced interval gate g k calls (gate last database at).0 (some at)
                  (rw stored (lookup-accepted last database k at same))))
        | inr other ↦
            rw (other, stored, accepted)
              (accepted_spaced interval gate g k calls (insert database at last) o
                (lookup-other last database k at other ∙ found))
      ]
    ]

-- However the calls for several databases interleave, a database's operational samples are collected
-- at least the configured interval apart.
pub should_collect_operational_spaced :
    (c : OperationalConfig) (k : String) (calls : List (String × Time))
    → SpacedFrom
        (Operational.get_interval c)
        none
        (accepted (should_collect_operational c) k [] calls)
unfolding lookup
should_collect_operational_spaced c k calls =
    accepted_spaced (Operational.get_interval c) (should_collect_operational c)
      (operational-IsGate c) k calls [] none refl

-- However the calls for several databases interleave, the details and plans of a database's SQL
-- statements are collected at least the configured interval apart.
pub should_collect_sql_details_spaced :
    (c : SqlPlanConfig) (k : String) (calls : List (String × Time))
    → SpacedFrom (Plans.get_interval c) none (accepted (should_collect_sql_details c) k [] calls)
unfolding lookup
should_collect_sql_details_spaced c k calls =
    accepted_spaced (Plans.get_interval c) (should_collect_sql_details c) (sql_details-IsGate c) k
      calls [] none refl
