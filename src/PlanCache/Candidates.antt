-- ===== src/PlanCache/Candidates.antt =====
-- The candidates of one pass over the samples (collector/performance.go).
use harry_performance_scrape.Prelude.{
  ℕ, ◌+◌, ◌≤◌, ◌≡◌, refl, inl, inr, false, ◌||◌, Option, none, some, List, [], ◌∷◌, ◌++◌, arith,
  length, length-append, leb, Bool-cases,
}
use harry_performance_scrape.Samples.Performance.{SqlSample, SqlPlanKey}
use harry_performance_scrape.PlanCache.{plan_key_eq, has_key, plan_key_of, added, candidates}

-- No key twice.
abbrev pub IsDistinct : List SqlPlanKey → Type 0
IsDistinct [] = Unit
IsDistinct (k ∷ ks) = (has_key k ks ≡ false) × IsDistinct ks

pub has_key-append :
    (k : SqlPlanKey) (js ks : List SqlPlanKey) → has_key k (js ++ ks) ≡ has_key k js || has_key k ks
unfolding has_key
has_key-append k [] ks = refl
has_key-append k (j ∷ js) ks = ground (arith, has_key-append k js ks)

append-IsDistinct :
    (ks : List SqlPlanKey) (k : SqlPlanKey)
    → IsDistinct ks
    → has_key k ks ≡ false
    → IsDistinct (ks ++ (k ∷ []))
unfolding has_key
append-IsDistinct [] k d h = (refl, tt)
append-IsDistinct (j ∷ js) k (other, d) h = (
  ground (arith, has_key-append j js (k ∷ []), plan_key_eq.same_iff j k, plan_key_eq.same_iff k j),
  append-IsDistinct js k d (ground arith),
)

added-IsDistinct :
    (o : Option SqlPlanKey) (ks : List SqlPlanKey) → IsDistinct ks → IsDistinct (added o ks)
added-IsDistinct none ks d = d
added-IsDistinct (some k) ks d = elim (Bool-cases (has_key k ks)) [
  | inl old ↦ rw old d
  | inr new ↦ rw new (append-IsDistinct ks k d new)
]

length-added-le :
    (o : Option SqlPlanKey) (ks : List SqlPlanKey) → length (added o ks) ≤ length ks + 1
length-added-le none ks = omega arith
length-added-le (some k) ks = ground (arith, length-append ks (k ∷ []))

pub candidates-IsDistinct :
    (limit : ℕ) (ss : List SqlSample) (ks : List SqlPlanKey)
    → IsDistinct ks
    → IsDistinct (candidates limit ss ks)
unfolding candidates
candidates-IsDistinct limit [] ks d = d
candidates-IsDistinct limit (s ∷ ss) ks d = elim (Bool-cases (leb limit (length ks))) [
  | inl full ↦ rw full d
  | inr more ↦ rw more (
      candidates-IsDistinct limit ss (added (plan_key_of s) ks)
        (added-IsDistinct (plan_key_of s) ks d))
]

pub length-candidates-le :
    (limit : ℕ) (ss : List SqlSample) (ks : List SqlPlanKey)
    → length ks ≤ limit
    → length (candidates limit ss ks) ≤ limit
unfolding candidates
length-candidates-le limit [] ks h = h
length-candidates-le limit (s ∷ ss) ks h = elim (Bool-cases (leb limit (length ks))) [
  | inl full ↦ rw full h
  | inr more ↦
      let room : length (added (plan_key_of s) ks) ≤ limit =
        ground (arith, length-added-le (plan_key_of s) ks) in
      rw more (length-candidates-le limit ss (added (plan_key_of s) ks) room)
]
