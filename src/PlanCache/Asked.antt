-- ===== src/PlanCache/Asked.antt =====
-- Which plans are asked for, and that a collected plan is not asked for again
-- (collector/performance.go).
use harry_performance_scrape.Prelude.{
  ℕ, ◌≤◌, ◌≡◌, refl, inl, inr, Bool, true, false, not, ◌&&◌, ◌||◌, List, [], ◌∷◌, map, arith,
  length, keep, Bool-cases, ◌==◌, ==_refl, String, string_eq, ap, sym,
}
use harry_performance_scrape.Prelude.Dict.{insert, lookup-insert_self}
use harry_performance_scrape.Samples.Performance.{SqlSample, SqlPlanKey, SqlPlanOperation}
use harry_performance_scrape.PlanCache.{
  plan_key_eq, has_key, candidates, KnownPlans, known_of, uncached_sql_plan_candidates, with_plans,
  mark_sql_plans_collected,
}
use harry_performance_scrape.PlanCache.Candidates.{
  IsDistinct, candidates-IsDistinct, length-candidates-le,
}

module _ (p : SqlPlanKey → Bool) where
  has_key-keep :
      (k : SqlPlanKey) (ks : List SqlPlanKey) → has_key k (keep p ks) ≡ has_key k ks && p k
  unfolding has_key keep
  has_key-keep k [] = refl
  has_key-keep k (j ∷ js) = elim (Bool-cases (k == j)) [
    | inl same ↦
        let e : p k ≡ p j = ap p ((plan_key_eq.same_iff k j).0 same) in
        ground (arith, has_key-keep k js)
    | inr other ↦ ground (arith, has_key-keep k js)
  ]

  keep-IsDistinct : (ks : List SqlPlanKey) → IsDistinct ks → IsDistinct (keep p ks)
  unfolding keep
  keep-IsDistinct [] d = tt
  keep-IsDistinct (k ∷ ks) (new, d) = elim (Bool-cases (p k)) [
    | inl taken ↦ rw taken (ground (arith, has_key-keep k ks), keep-IsDistinct ks d)
    | inr left ↦ rw left (keep-IsDistinct ks d)
  ]

  length-keep-le : (ks : List SqlPlanKey) → length (keep p ks) ≤ length ks
  unfolding keep
  length-keep-le [] = omega arith
  length-keep-le (k ∷ ks) = ground (arith, length-keep-le ks)

  keep_none :
      (ks : List SqlPlanKey)
      → ((k : SqlPlanKey) → has_key k ks ≡ true → p k ≡ false)
      → keep p ks ≡ []
  unfolding keep has_key
  keep_none [] h = refl
  keep_none (k ∷ ks) h =
      let here : p k ≡ false = h k (ground (arith, ==_refl k)) in
      rw (here, keep) (keep_none ks (λ j q. h j (ground arith)))

same-has_key :
    (k j : SqlPlanKey) (ks : List SqlPlanKey) → (k == j) ≡ true → has_key j ks ≡ has_key k ks
same-has_key k j ks same = ap (λ i. has_key i ks) (sym ((plan_key_eq.same_iff k j).0 same))

has_key-with_plans :
    (k : SqlPlanKey) (ps : List SqlPlanOperation) (known : List SqlPlanKey)
    → has_key k (with_plans ps known) ≡ has_key k known || has_key k (map (λ p. p.sql_plan_key) ps)
unfolding with_plans has_key
has_key-with_plans k [] known = ground arith
has_key-with_plans k (p ∷ ps) known = elim (Bool-cases (has_key p.sql_plan_key known)) [
  | inl old ↦
      rw old (ground (arith, has_key-with_plans k ps known, same-has_key k p.sql_plan_key known))
  | inr new ↦ rw new (ground (arith, has_key-with_plans k ps (p.sql_plan_key ∷ known)))
]

-- What is asked for is new and comes once, and there are at most `limit` of it.
pub uncached-IsDistinct :
    (database : String) (samples : List SqlSample) (limit : ℕ) (m : KnownPlans)
    → let asked = (uncached_sql_plan_candidates database samples limit m).1 in
      IsDistinct asked
      × (length asked ≤ limit)
      × ((k : SqlPlanKey) → has_key k asked ≡ true → has_key k (known_of database m) ≡ false)
unfolding uncached_sql_plan_candidates
uncached-IsDistinct database samples limit m =
    let cs : List SqlPlanKey = candidates limit samples [] in
    let is_new : SqlPlanKey → Bool = λ k. not (has_key k (known_of database m)) in
    (
      keep-IsDistinct is_new cs (candidates-IsDistinct limit samples [] tt),
      omega (arith, length-keep-le is_new cs, length-candidates-le limit samples [] (omega arith)),
      λ k h. ground (arith, has_key-keep is_new k cs),
    )

all_known :
    (known cs : List SqlPlanKey) (plans : List SqlPlanOperation) (k : SqlPlanKey)
    → ((j : SqlPlanKey)
        → has_key j (keep (λ i. not (has_key i known)) cs) ≡ true
        → has_key j (map (λ p. p.sql_plan_key) plans) ≡ true)
    → has_key k cs ≡ true
    → not (has_key k (with_plans plans (keep (λ i. has_key i known) cs))) ≡ false
all_known known cs plans k got h = ground (
  arith,
  has_key-with_plans k plans (keep (λ i. has_key i known) cs),
  has_key-keep (λ i. has_key i known) k cs,
  has_key-keep (λ i. not (has_key i known)) k cs,
  got k,
)

known_of-insert :
    (database : String) (ks : List SqlPlanKey) (m : KnownPlans)
    → known_of database (insert database ks m) ≡ ks
known_of-insert database ks m = rw (lookup-insert_self database ks m) refl

-- Once plans for everything that was asked for are marked, the same samples ask for nothing.
pub mark_then_uncached :
    (database : String) (samples : List SqlSample) (limit : ℕ) (plans : List SqlPlanOperation)
    (m : KnownPlans)
    → ((k : SqlPlanKey)
        → has_key k (uncached_sql_plan_candidates database samples limit m).1 ≡ true
        → has_key k (map (λ p. p.sql_plan_key) plans) ≡ true)
    → (uncached_sql_plan_candidates database samples limit (
        mark_sql_plans_collected database plans
          (uncached_sql_plan_candidates database samples limit m).0)).1
      ≡ []
unfolding uncached_sql_plan_candidates mark_sql_plans_collected
mark_then_uncached database samples limit plans m got =
    let cs : List SqlPlanKey = candidates limit samples [] in
    let known : List SqlPlanKey = known_of database m in
    let active : List SqlPlanKey = keep (λ k. has_key k known) cs in
    rw (known_of-insert database _ (insert database active m), known_of-insert database active m)
      (keep_none (λ k. not (has_key k (with_plans plans active))) cs
        (λ k h. all_known known cs plans k got h))
