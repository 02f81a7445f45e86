-- ===== src/Profile/Locks.antt =====
-- The read locks that the queries of collector/performance.go leave on a database.
use harry_performance_scrape.Prelude.{
  ℕ, suc, ◌≤◌, ◌<◌, ◌≡◌, refl, Bool, true, false, ◌&&◌, ◌||◌, List, [], ◌∷◌, String, if◌then◌else◌,
  arith, ◌∙◌, inl, inr, Bool-cases,
}
use harry_performance_scrape.Prelude.Int.{pos_part}
use harry_performance_scrape.Clock.{Time}
use harry_performance_scrape.Config.Plans.{SqlPlanConfig, get_top_n}
use harry_performance_scrape.Database.{Database, Answer, rows, failed, query_context}
use harry_performance_scrape.Samples.Performance.{
  SqlPlanKey, SqlSample, SessionSample, BlockingSessionSample,
}
use harry_performance_scrape.Consumers.{take_top_sql_consumers}
use harry_performance_scrape.PlanCache.{uncached_sql_plan_candidates}
use harry_performance_scrape.Gates.{should_collect_sql_details}
use harry_performance_scrape.Collection.Query.{Rows}
use harry_performance_scrape.Profile.{
  PerformanceAnswers, Profiler, Detailed, top_sql_limit, recorded_deltas, scrape_sql_details,
  with_plans_collected, collect_details, details_if_due, scrape_performance_samples,
}
use harry_performance_scrape.Profile.Rows.{
  sql_sample, sql_detail, session_sample, blocking_session_sample, sql_plan_operation,
}
use harry_performance_scrape.Profile.Query.{Fetch, Fetched, reads, fetched, fetch, fetched_details}

abbrev is_answered : {A : Type 0} → Answer A → Bool
is_answered (rows r) = true
is_answered (failed e) = false

-- A query that the driver answers, although its deadline has passed by then.
abbrev pub is_late : {A : Type 0} → Fetch A → Database → Bool
is_late f d = f.deadline && is_answered (query_context f.answer d)

module _ {A B : Type 0} (sample_of : A → B) where
  locks-fetched :
      (deadline : Bool) (o : Answer (Rows A)) (locks : ℕ)
      → (fetched sample_of deadline o locks).locks
        ≡ (if deadline && is_answered o then suc locks else locks)
  unfolding fetched reads
  locks-fetched true (failed e) locks = refl
  locks-fetched false (failed e) locks = refl
  locks-fetched true (rows r) locks = refl
  locks-fetched false (rows r) locks = refl

  locks-fetch :
      (f : Fetch A) (d : Database) (locks : ℕ)
      → (fetch sample_of f d locks).locks ≡ (if is_late f d then suc locks else locks)
  unfolding fetch
  locks-fetch f d locks = locks-fetched f.deadline (query_context f.answer d) locks

  locks-fetched_details :
      (deadline : Bool) (o : Answer (Rows A)) (locks : ℕ)
      → (fetched_details sample_of deadline o locks).locks ≡ locks
  unfolding fetched_details reads
  locks-fetched_details deadline (failed e) locks = refl
  locks-fetched_details deadline (rows r) locks = refl

module _ (a : PerformanceAnswers) (d : Database) (collected : Time) where
  locks-scrape_sql_details :
      (ids : List String) (locks : ℕ) → (scrape_sql_details a d collected ids locks).locks ≡ locks
  unfolding scrape_sql_details
  locks-scrape_sql_details [] locks = refl
  locks-scrape_sql_details (i ∷ ids) locks =
      locks-fetched_details (sql_detail collected d.name) (a.details (i ∷ ids)).deadline
        (query_context (a.details (i ∷ ids)).answer d) locks

  -- Whether the query for the plans is late, if plans are asked for.
  abbrev pub plans_late : List SqlPlanKey → Bool
  plans_late [] = false
  plans_late (k ∷ ks) = is_late (a.plans (k ∷ ks)) d

  locks-with_plans_collected :
      (asked : List SqlPlanKey) (r : Detailed)
      → (with_plans_collected a d collected asked r).profiler.locks
        ≡ (if plans_late asked then suc r.profiler.locks else r.profiler.locks)
  unfolding with_plans_collected
  locks-with_plans_collected [] r = refl
  locks-with_plans_collected (k ∷ ks) r =
      locks-fetch (sql_plan_operation collected d.name) (a.plans (k ∷ ks)) d r.profiler.locks

  -- The locks after the details and plans: one more at most, and none without a late query.
  abbrev Leaves : ℕ → ℕ → Type 0
  Leaves before after =
      (before ≤ after) × (((asked : List SqlPlanKey) → plans_late asked ≡ false) → after ≡ before)

  leaves :
      (b : Bool) (n : ℕ)
      → (((asked : List SqlPlanKey) → plans_late asked ≡ false) → b ≡ false)
      → Leaves n (if b then suc n else n)
  leaves b n h = elim (Bool-cases b) [
    | inl late ↦ rw late (omega arith, λ k. absurd (ground (arith, h k)))
    | inr fine ↦ rw fine (omega arith, λ k. refl)
  ]

  locks-collect_details :
      (c : SqlPlanConfig) (s : Profiler)
      → Leaves s.locks (collect_details a c d collected s).profiler.locks
  unfolding collect_details
  locks-collect_details c s =
      let top = (take_top_sql_consumers d.name (pos_part (get_top_n c)) s.consumers).1 in
      let r = scrape_sql_details a d collected top s.locks in
      let asked = (uncached_sql_plan_candidates d.name r.samples top_sql_limit s.known_plans).1 in
      rw (locks-with_plans_collected asked _, locks-scrape_sql_details top s.locks)
        (leaves (plans_late asked) s.locks (λ k. k asked))

  locks-details_if_due :
      (c : SqlPlanConfig) (s : Profiler)
      → Leaves s.locks (details_if_due a c d collected s).profiler.locks
  unfolding details_if_due
  locks-details_if_due c s =
      let last = should_collect_sql_details c s.last_sql_detail_collection d.name collected in
      let s' = record s { last_sql_detail_collection = last.0 } in
      elim (Bool-cases last.1) [
        | inl due ↦ rw due (locks-collect_details c s')
        | inr early ↦ rw early (omega arith, λ k. refl)
      ]

adds :
    (x y z : Bool) (n n1 n2 n3 after : ℕ)
    → n1 ≡ (if x then suc n else n)
    → n2 ≡ (if y then suc n1 else n1)
    → n3 ≡ (if z then suc n2 else n2)
    → n3 ≤ after
    → (x || y || z) ≡ true
    → n < after
adds x y z n n1 n2 n3 after h k l m late = ground arith

module _ (a : PerformanceAnswers) (c : SqlPlanConfig) (d : Database) (collected : Time)
    (s : Profiler) where
  abbrev sql_fetch : Fetched SqlSample
  sql_fetch = fetch (sql_sample collected d.name) a.sql d s.locks

  abbrev sessions_fetch : Fetched SessionSample
  sessions_fetch = fetch (session_sample collected d.name) a.sessions d sql_fetch.locks

  abbrev blocking_fetch : Fetched BlockingSessionSample
  blocking_fetch =
      fetch (blocking_session_sample collected d.name) a.blocking d sessions_fetch.locks

  sql_locks : sql_fetch.locks ≡ (if is_late a.sql d then suc s.locks else s.locks)
  sql_locks = locks-fetch (sql_sample collected d.name) a.sql d s.locks

  sessions_locks :
      sessions_fetch.locks ≡ (if is_late a.sessions d then suc sql_fetch.locks else sql_fetch.locks)
  sessions_locks = locks-fetch (session_sample collected d.name) a.sessions d sql_fetch.locks

  blocking_locks :
      blocking_fetch.locks
      ≡ (if is_late a.blocking d then suc sessions_fetch.locks else sessions_fetch.locks)
  blocking_locks =
      locks-fetch (blocking_session_sample collected d.name) a.blocking d sessions_fetch.locks

  abbrev locks_after : ℕ
  locks_after = (scrape_performance_samples a c d collected s).profiler.locks

  rest-Leaves : Leaves a d collected blocking_fetch.locks locks_after
  unfolding scrape_performance_samples
  rest-Leaves = locks-details_if_due a d collected c (record s {
    consumers = recorded_deltas d.name sql_fetch s.consumers;
    locks = blocking_fetch.locks;
  })

  -- A performance collection gives back every read lock on the database that it takes, where the driver
  -- answers none of its queries after the deadline.
  pub locks-scrape_performance_samples :
      is_late a.sql d ≡ false
      → is_late a.sessions d ≡ false
      → is_late a.blocking d ≡ false
      → ((asked : List SqlPlanKey) → plans_late a d collected asked ≡ false)
      → (scrape_performance_samples a c d collected s).profiler.locks ≡ s.locks
  locks-scrape_performance_samples h k l p =
      rest-Leaves.1 p ∙ (blocking_locks ∙ rw l (sessions_locks ∙ rw k (sql_locks ∙ rw h refl)))

  -- Where the driver answers the query for statements, for sessions or for blocking sessions after its
  -- deadline, the collection ends with more read locks than before, and nothing gives them back.
  pub locks-scrape_performance_samples_late :
      (is_late a.sql d || is_late a.sessions d || is_late a.blocking d) ≡ true
      → s.locks < (scrape_performance_samples a c d collected s).profiler.locks
  locks-scrape_performance_samples_late late =
      adds (is_late a.sql d) (is_late a.sessions d) (is_late a.blocking d) s.locks sql_fetch.locks
        sessions_fetch.locks blocking_fetch.locks locks_after sql_locks sessions_locks
        blocking_locks rest-Leaves.0 late
