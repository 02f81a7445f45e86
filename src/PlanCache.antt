-- ===== src/PlanCache.antt =====
-- The cache of collected SQL plans (uncachedSQLPlanCandidates and markSQLPlansCollected of
-- collector/performance.go), each under `planCacheMu` for the shared map.
pub mod Candidates
pub mod Asked
use harry_performance_scrape.Prelude.{
  ℕ, ◌≡◌, ◌↔◌, Bool, true, false, not, ◌&&◌, ◌||◌, Option, none, some, List, [], ◌∷◌, ◌++◌, String,
  string_eq, ◌==◌, Comparable, if◌then◌else◌, arith, length, leb, keep, or_else,
}
use harry_performance_scrape.Prelude.Int.{ℤ, pos, int_eq, leb_ℤ}
use harry_performance_scrape.Prelude.Dict.{Dict, lookup, insert}
use harry_performance_scrape.Samples.Performance.{SqlSample, SqlPlanKey, SqlPlanOperation}

abbrev pub plan_key_same : SqlPlanKey → SqlPlanKey → Bool
plan_key_same a b =
    a.inst_id == b.inst_id
    && a.sql_id == b.sql_id
    && a.child_number == b.child_number
    && a.plan_hash_value == b.plan_hash_value

pub plan_key_iff : (a b : SqlPlanKey) → (plan_key_same a b ≡ true) ↔ (a ≡ b)
plan_key_iff a b = ground (
  arith,
  int_eq.same_iff a.inst_id b.inst_id,
  string_eq.same_iff a.sql_id b.sql_id,
  int_eq.same_iff a.child_number b.child_number,
  int_eq.same_iff a.plan_hash_value b.plan_hash_value,
)

instance abbrev pub plan_key_eq : Comparable SqlPlanKey
plan_key_eq = record { same = plan_key_same; same_iff = plan_key_iff }

-- A set of keys, as `map[SQLPlanKey]struct{}`.
unfoldable pub has_key : SqlPlanKey → List SqlPlanKey → Bool
has_key k [] = false
has_key k (j ∷ js) = k == j || has_key k js

-- The key of a sample, unless it has no child number or no positive plan hash value.
unfoldable pub plan_key_of : SqlSample → Option SqlPlanKey
plan_key_of s = elim s.child_number [
  | none ↦ none
  | some child ↦ elim s.plan_hash_value [
    | none ↦ none
    | some hash ↦
        if leb_ℤ hash (pos 0)
        then none
        else some (record {
          inst_id = s.inst_id;
          sql_id = s.sql_id;
          child_number = child;
          plan_hash_value = hash;
        })
  ]
]

abbrev pub added : Option SqlPlanKey → List SqlPlanKey → List SqlPlanKey
added none ks = ks
added (some k) ks = if has_key k ks then ks else ks ++ (k ∷ [])

-- The loop over the samples, with the candidates so far, which `seen` holds as well.
unfoldable pub candidates : ℕ → List SqlSample → List SqlPlanKey → List SqlPlanKey
unfolding has_key plan_key_of
candidates limit [] ks = ks
candidates limit (s ∷ ss) ks =
    let rest = candidates limit ss (added (plan_key_of s) ks) in
    if leb limit (length ks) then ks else rest

abbrev pub KnownPlans : Type 0
KnownPlans = Dict String (List SqlPlanKey)

abbrev pub known_of : String → KnownPlans → List SqlPlanKey
known_of database m = or_else (lookup database m) []

-- The cache keeps the known candidates only; the others are returned.
unfoldable pub uncached_sql_plan_candidates :
    String → List SqlSample → ℕ → KnownPlans → KnownPlans × List SqlPlanKey
unfolding candidates
uncached_sql_plan_candidates database samples limit m =
    let known = known_of database m in
    let all_candidates = candidates limit samples [] in
    (
      insert database (keep (λ k. has_key k known) all_candidates) m,
      keep (λ k. not (has_key k known)) all_candidates,
    )

-- The loop over the collected plans.
unfoldable pub with_plans : List SqlPlanOperation → List SqlPlanKey → List SqlPlanKey
with_plans [] known = known
with_plans (p ∷ ps) known =
    with_plans ps (if has_key p.sql_plan_key known then known else p.sql_plan_key ∷ known)

unfoldable pub mark_sql_plans_collected : String → List SqlPlanOperation → KnownPlans → KnownPlans
unfolding with_plans
mark_sql_plans_collected database plans m =
    insert database (with_plans plans (known_of database m)) m
