-- ===== src/Profile.antt =====
-- ScrapePerformanceSamples of collector/performance.go for one database. What the driver answers is an
-- argument. The mutexes around the maps of the scraper are held for single calls; other databases have
-- other keys in them.
pub mod Rows
pub mod Query
pub mod Locks
use harry_performance_scrape.Prelude.{
  ℕ, zero, suc, ◌+◌, Bool, true, false, not, ◌&&◌, ◌||◌, Option, none, some, List, [], ◌∷◌, ◌++◌,
  map, String, if◌then◌else◌, ◌==◌, is_some,
}
use harry_performance_scrape.Prelude.Int.{ℤ, pos_part}
use harry_performance_scrape.Prelude.Dict.{Dict}
use harry_performance_scrape.Clock.{Time}
use harry_performance_scrape.Texts.{Text, text, text_eq, trim_space}
use harry_performance_scrape.Errors.{Error, wrap_error, join_errors}
use harry_performance_scrape.Config.Plans.{SqlPlanConfig, get_top_n}
use harry_performance_scrape.Database.{Database}
use harry_performance_scrape.Samples.Performance.{
  SqlSample, SessionSample, BlockingSessionSample, SqlTextSample, SqlPlanKey, SqlPlanOperation,
  PerformanceSamples,
}
use harry_performance_scrape.Consumers.{
  Consumers, record_sql_consumer_deltas, take_top_sql_consumers,
}
use harry_performance_scrape.PlanCache.{
  KnownPlans, uncached_sql_plan_candidates, mark_sql_plans_collected,
}
use harry_performance_scrape.Gates.{should_collect_sql_details}
use Rows.{
  SqlRow, SqlDetailRow, SessionRow, BlockingSessionRow, SqlPlanRow, sql_sample, sql_detail,
  session_sample, blocking_session_sample, sql_plan_operation,
}
use Query.{Fetch, Fetched, fetch, fetched_details}
use harry_performance_scrape.Database.{query_context}

-- What the driver answers. The answers to the details and to the plans depend on what is asked for.
pub record PerformanceAnswers : Type 0 where
  pub sql : Fetch SqlRow
  pub sessions : Fetch SessionRow
  pub blocking : Fetch BlockingSessionRow
  pub details : List String → Fetch SqlDetailRow
  pub plans : List SqlPlanKey → Fetch SqlPlanRow

-- The maps of the scraper that the collection uses, and the read locks on the database.
pub record Profiler : Type 0 where
  pub consumers : Consumers
  pub last_sql_detail_collection : Dict String Time
  pub known_plans : KnownPlans
  pub locks : ℕ

abbrev pub top_sql_limit : ℕ
top_sql_limit = 100

abbrev pub wrapped : Text → Option Error → Option Error
wrapped prefix none = none
wrapped prefix (some e) = some (wrap_error prefix e)

-- recordSQLConsumerDeltas runs where the query has no error.
abbrev pub recorded_deltas : String → Fetched SqlSample → Consumers → Consumers
recorded_deltas database r c =
    if is_some r.err then c else record_sql_consumer_deltas database r.samples c

-- The texts that are not blank.
unfoldable pub text_of : SqlSample → List SqlTextSample
text_of s = elim s.sql_full_text [
  | none ↦ []
  | some t ↦
      if trim_space (text t) == []
      then []
      else record {
        collected_at = s.collected_at;
        database = s.database;
        sql_id = s.sql_id;
        sql_full_text = t;
      }
        ∷ []
]

unfoldable pub texts_of : List SqlSample → List SqlTextSample
unfolding text_of
texts_of [] = []
texts_of (s ∷ ss) = text_of s ++ texts_of ss

abbrev pub scrape_sql_samples : PerformanceAnswers → Database → Time → ℕ → Fetched SqlSample
scrape_sql_samples a d collected locks = fetch (sql_sample collected d.name) a.sql d locks

abbrev pub scrape_session_samples : PerformanceAnswers → Database → Time → ℕ → Fetched SessionSample
scrape_session_samples a d collected locks =
    fetch (session_sample collected d.name) a.sessions d locks

abbrev pub scrape_blocking_session_samples :
    PerformanceAnswers → Database → Time → ℕ → Fetched BlockingSessionSample
scrape_blocking_session_samples a d collected locks =
    fetch (blocking_session_sample collected d.name) a.blocking d locks

abbrev pub scrape_sql_plans :
    PerformanceAnswers → Database → Time → List SqlPlanKey → ℕ → Fetched SqlPlanOperation
scrape_sql_plans a d collected [] locks = record { samples = []; err = none; locks = locks }
scrape_sql_plans a d collected (k ∷ ks) locks =
    fetch (sql_plan_operation collected d.name) (a.plans (k ∷ ks)) d locks

-- scrapeSQLDetails: nothing is asked for no statement.
unfoldable pub scrape_sql_details :
    PerformanceAnswers → Database → Time → List String → ℕ → Fetched SqlSample
unfolding fetched_details sql_detail
scrape_sql_details a d collected [] locks = record { samples = []; err = none; locks = locks }
scrape_sql_details a d collected (i ∷ ids) locks =
    let f = a.details (i ∷ ids) in
    fetched_details (sql_detail collected d.name) f.deadline (query_context f.answer d) locks

-- What the details and plans leave.
pub record Detailed : Type 0 where
  pub profiler : Profiler
  pub details : List SqlSample
  pub texts : List SqlTextSample
  pub plans : List SqlPlanOperation
  pub err : Option Error

-- The plans of the candidates, where there are candidates: only plans without an error are marked.
unfoldable pub with_plans_collected :
    PerformanceAnswers → Database → Time → List SqlPlanKey → Detailed → Detailed
unfolding fetch sql_plan_operation
with_plans_collected a d collected [] r = r
with_plans_collected a d collected (k ∷ ks) r =
    let p = scrape_sql_plans a d collected (k ∷ ks) r.profiler.locks in
    record r {
      plans = p.samples;
      err = join_errors r.err (wrapped (text "scrape SQL execution plans: ") p.err);
      profiler = record (r.profiler) {
        locks = p.locks;
        known_plans =
            if is_some p.err
            then r.profiler.known_plans
            else mark_sql_plans_collected d.name p.samples r.profiler.known_plans;
      };
    }

-- The branch of shouldCollectSQLDetails.
unfoldable pub collect_details :
    PerformanceAnswers → SqlPlanConfig → Database → Time → Profiler → Detailed
unfolding scrape_sql_details with_plans_collected texts_of
collect_details a c d collected s =
    let (consumers', top) = take_top_sql_consumers d.name (pos_part (get_top_n c)) s.consumers in
    let r = scrape_sql_details a d collected top s.locks in
    let (known, asked) =
      uncached_sql_plan_candidates d.name r.samples top_sql_limit s.known_plans in
    with_plans_collected a d collected asked (record {
      profiler = record s { consumers = consumers'; known_plans = known; locks = r.locks };
      details = r.samples;
      texts = texts_of r.samples;
      plans = [];
      err = wrapped (text "scrape SQL text and plan candidates: ") r.err;
    })

-- Where the details are not due.
abbrev pub no_details : Profiler → Detailed
no_details s = record { profiler = s; details = []; texts = []; plans = []; err = none }

-- shouldCollectSQLDetails, and its branch.
unfoldable pub details_if_due :
    PerformanceAnswers → SqlPlanConfig → Database → Time → Profiler → Detailed
unfolding collect_details
details_if_due a c d collected s =
    let (last, due) = should_collect_sql_details c s.last_sql_detail_collection d.name collected in
    let s' = record s { last_sql_detail_collection = last } in
    if due then collect_details a c d collected s' else no_details s'

-- What ScrapePerformanceSamples returns, and what it leaves.
pub record Profiled : Type 0 where
  pub profiler : Profiler
  pub samples : PerformanceSamples
  pub err : Option Error

unfoldable pub scrape_performance_samples :
    PerformanceAnswers → SqlPlanConfig → Database → Time → Profiler → Profiled
unfolding fetch sql_sample session_sample blocking_session_sample details_if_due
scrape_performance_samples a c d collected s =
    let sql = scrape_sql_samples a d collected s.locks in
    let sessions = scrape_session_samples a d collected sql.locks in
    let blocking = scrape_blocking_session_samples a d collected sessions.locks in
    let r =
      details_if_due a c d collected
        (record s { consumers = recorded_deltas d.name sql s.consumers; locks = blocking.locks }) in
    record {
      profiler = r.profiler;
      samples = record {
        sql = sql.samples;
        sql_details = r.details;
        sql_texts = r.texts;
        sql_plans = r.plans;
        sessions = sessions.samples;
        blocking_sessions = blocking.samples;
        database_activity = [];
      };
      err =
          join_errors
            (join_errors (join_errors (wrapped (text "scrape sql performance: ") sql.err) r.err)
              (wrapped (text "scrape session performance: ") sessions.err))
            (wrapped (text "scrape blocking sessions: ") blocking.err);
    }
