-- ===== src/Activity.antt =====
-- sampleActivity of collector/activity.go: one cycle of activity sampling over all databases. What the
-- driver, the sink and the clock answer is an argument. The databases are sampled by goroutines of their
-- own, which share nothing but the map of watermarks that they only read; their results are taken here in
-- the order of the databases.
pub mod Rows
pub mod Watermarks
pub mod Accounts
use harry_performance_scrape.Prelude.{
  ℕ, suc, ◌*◌, Bool, true, false, not, ◌&&◌, Option, none, some, List, [], ◌∷◌, ◌++◌, map, String,
  if◌then◌else◌, is_some, or_else, length, string_eq, ◌==◌,
}
use harry_performance_scrape.Prelude.Int.{ℤ, pos, sub64}
use harry_performance_scrape.Prelude.Dict.{Dict, lookup, insert}
use harry_performance_scrape.Clock.{Time, Duration, zero_time, after, time_add, time_sub, minute}
use harry_performance_scrape.Texts.{Text, text, text_eq}
use harry_performance_scrape.Errors.{Error, new_error, wrap_error, deadline_exceeded}
use harry_performance_scrape.Status.{ScrapeStatusSample, new_scrape_status}
use harry_performance_scrape.Connection.{is_active, state_text}
use harry_performance_scrape.Config.Activity.{
  ActivityConfig, get_source, get_interval, get_query_timeout,
}
use harry_performance_scrape.Database.{
  Database, Answer, rows, failed, query_context, activity_unavailable,
  quarantine_connection_failure, suspend_activity,
}
use harry_performance_scrape.Samples.{SampleBatch, ScrapeSummary}
use harry_performance_scrape.Samples.Operational
use harry_performance_scrape.Samples.Performance
use harry_performance_scrape.Samples.Performance.{DatabaseActivitySample}
use harry_performance_scrape.Runtime.{Instance, new_runtime_sample}
use harry_performance_scrape.Collection.Query.{Rows as QueryRows}
use harry_performance_scrape.Profile.Query.{Fetch, scan_rows}
use Rows.{SessionActivityRow, AshRow, session_activity_sample, ash_sample}

abbrev pub Watermarks : Type 0
Watermarks = Dict String Time

-- What the driver answers for a database; the samples of ASH are asked for since a time.
pub record ActivityAnswers : Type 0 where
  pub sessions : Fetch SessionActivityRow
  pub ash : Time → Fetch AshRow

abbrev pub deadline_error : Error
deadline_error = record {
  message = text "context deadline exceeded";
  causes = deadline_exceeded ∷ [];
}

unfoldable pub activity_query_error : Bool → Error → Error
activity_query_error true e = wrap_error (text "Oracle activity query timed out: ") deadline_error
activity_query_error false e = e

module _ {A : Type 0} (sample_of : A → DatabaseActivitySample) where
  -- The end that both queries share, by what QueryContext returned.
  unfoldable pub activity_rows :
      Bool → Answer (QueryRows A) → List DatabaseActivitySample × Option Error
  unfolding activity_query_error scan_rows
  activity_rows deadline (failed e) = ([], some (activity_query_error deadline e))
  activity_rows deadline (rows r) = scan_rows sample_of r.scanned r.err []

module _ (c : ActivityConfig) (a : ActivityAnswers) where
  unfoldable pub scrape_session_activity_samples :
      Database → Time → List DatabaseActivitySample × Option Error
  unfolding activity_rows session_activity_sample
  scrape_session_activity_samples d sampled =
      activity_rows (session_activity_sample (get_interval c) sampled d.name) a.sessions.deadline
        (query_context a.sessions.answer d)

  -- One interval before the watermark, or two minutes ago.
  unfoldable pub ash_since : Option Time → Time → Time
  ash_since none sampled = time_add sampled (sub64 (pos 0) (pos (2 * minute)))
  ash_since (some watermark) sampled = time_add watermark (sub64 (pos 0) (get_interval c))

  unfoldable pub scrape_ash_samples :
      Watermarks → Database → Time → List DatabaseActivitySample × Option Error
  unfolding activity_rows ash_sample ash_since
  scrape_ash_samples w d sampled =
      let f = a.ash (ash_since (lookup d.name w) sampled) in
      activity_rows (ash_sample (get_interval c) sampled d.name) f.deadline
        (query_context f.answer d)

  unfoldable pub scrape_activity_samples :
      Watermarks → Database → Time → List DatabaseActivitySample × Option Error
  unfolding scrape_session_activity_samples scrape_ash_samples
  scrape_activity_samples w d sampled =
      if get_source c == text "ash"
      then scrape_ash_samples w d sampled
      else scrape_session_activity_samples d sampled

-- The results that the goroutines send.
pub record ActivityResult : Type 0 where
  pub database : String
  pub duration : Duration
  pub samples : List DatabaseActivitySample
  pub err : Option Error

abbrev pub skipped : Database → Error → Database × ActivityResult
skipped d e = (d, record { database = d.name; duration = pos 0; samples = []; err = some e })

-- What a failure does to the database: it is quarantined, or else its activity is suspended.
unfoldable pub after_failure : Option Error → Time → Database → Database
unfolding quarantine_connection_failure suspend_activity
after_failure none now d = d
after_failure (some e) now d =
    let (d', lost) = quarantine_connection_failure (some e) now d in
    if lost then d' else suspend_activity (some e) d'

-- The goroutine of a database.
unfoldable pub sampled_by :
    Time
    → Duration
    → List DatabaseActivitySample × Option Error
    → Database
    → Database × ActivityResult
unfolding after_failure
sampled_by now elapsed (samples, err) d = (
  after_failure err now d,
  record { database = d.name; duration = elapsed; samples = samples; err = err },
)

-- The surroundings of one cycle.
pub record Surroundings : Type 0 where
  pub answers : Database → ActivityAnswers
  pub elapsed : Database → Duration
  pub at : Time
  pub started : Time
  pub finished : Time
  pub sink : SampleBatch → ScrapeSummary → Option Error

module _ (env : Surroundings) (c : ActivityConfig) (w : Watermarks) (sampled : Time) where
  abbrev pub unless_suspended : Option Error → Database → Database × ActivityResult
  unless_suspended (some e) d = skipped d e
  unless_suspended none d =
      sampled_by env.at (env.elapsed d) (scrape_activity_samples c (env.answers d) w d sampled) d

  unfoldable pub sample_database : Database → Database × ActivityResult
  unfolding sampled_by scrape_activity_samples activity_unavailable
  sample_database d =
      if not d.startup_ready
      then skipped d (new_error (text "database connection startup is still in progress"))
      else if not (is_active d.connection.state)
      then skipped d
          (new_error (text "database connection state is " ++ state_text d.connection.state))
      else unless_suspended (activity_unavailable d) d

-- The variables of the loop over the results.
pub record Taken : Type 0 where
  pub activity : List DatabaseActivitySample
  pub statuses : List ScrapeStatusSample
  pub latest_ash : Watermarks
  pub total_errors : ℕ

abbrev pub is_ash : DatabaseActivitySample → Bool
is_ash s = s.sample_source == "ASH"

abbrev pub mark_latest : String → DatabaseActivitySample → Watermarks → Watermarks
mark_latest database s latest =
    if is_ash s && after s.sample_time (or_else (lookup database latest) zero_time)
    then insert database s.sample_time latest
    else latest

unfoldable pub mark_all : String → List DatabaseActivitySample → Watermarks → Watermarks
mark_all database [] latest = latest
mark_all database (s ∷ ss) latest = mark_all database ss (mark_latest database s latest)

unfoldable pub take_result : Time → ActivityResult → Option Error → Taken → Taken
unfolding new_scrape_status mark_all
take_result sampled r (some e) t = record t {
  total_errors = suc t.total_errors;
  statuses =
      t.statuses ++ (new_scrape_status sampled r.database "activity" r.duration 0 (some e) ∷ []);
}
take_result sampled r none t = record t {
  statuses =
      t.statuses
      ++ (new_scrape_status sampled r.database "activity" r.duration (length r.samples) none ∷ []);
  activity = t.activity ++ r.samples;
  latest_ash = mark_all r.database r.samples t.latest_ash;
}

unfoldable pub take_results : Time → List ActivityResult → Taken → Taken
unfolding take_result
take_results sampled [] t = t
take_results sampled (r ∷ rs) t = take_results sampled rs (take_result sampled r r.err t)

abbrev pub nothing_taken : Taken
nothing_taken = record { activity = []; statuses = []; latest_ash = []; total_errors = 0 }

unfoldable pub advance : Watermarks → Watermarks → Watermarks
advance [] w = w
advance (e ∷ latest) w = advance latest (insert e.0 e.1 w)

-- The results of all databases.
abbrev pub activity_results :
    Surroundings → ActivityConfig → Watermarks → Time → List Database → List ActivityResult
activity_results env c w sampled databases =
    map (λ x. x.1) (map (sample_database env c w sampled) databases)

-- What a cycle leaves.
pub record Sampled : Type 0 where
  pub databases : List Database
  pub taken : Taken
  pub batch : SampleBatch
  pub summary : ScrapeSummary
  pub watermarks : Watermarks

abbrev pub activity_batch :
    Surroundings → ActivityConfig → Instance → Time → ℤ → String → Taken → SampleBatch
activity_batch env c scraper sampled missed trigger t = record {
  additional_metrics = [];
  performance = record Performance.empty { database_activity = t.activity };
  operational = Operational.empty;
  scrape_statuses = t.statuses;
  connection_states = [];
  connection_states_complete = false;
  runtime = some (
      new_runtime_sample scraper (record {
        scheduler = "activity";
        trigger = trigger;
        scheduled_at = sampled;
        started_at = env.started;
        collection_finished_at = env.finished;
        interval = get_interval c;
        query_timeout = some (get_query_timeout c);
        missed = missed;
        statuses = t.statuses;
        completion_collector = "activity";
        sample_count = length t.activity;
        error_count = t.total_errors;
      }));
}

abbrev pub activity_summary : Surroundings → Taken → ScrapeSummary
activity_summary env t = record {
  started_at = env.started;
  finished_at = env.finished;
  duration = time_sub env.finished env.started;
  total_errors = t.total_errors;
  sample_count = length t.activity;
}

unfoldable pub sample_activity :
    Surroundings
    → ActivityConfig
    → Instance
    → Time
    → ℤ
    → String
    → List Database
    → Watermarks
    → Sampled
unfolding sample_database take_results advance new_runtime_sample
sample_activity env c scraper sampled missed trigger databases w =
    let t = take_results sampled (activity_results env c w sampled databases) nothing_taken in
    let batch = activity_batch env c scraper sampled missed trigger t in
    let summary = activity_summary env t in
    record {
      databases = map (λ x. x.0) (map (sample_database env c w sampled) databases);
      taken = t;
      batch = batch;
      summary = summary;
      watermarks = if is_some (env.sink batch summary) then w else advance t.latest_ash w;
    }
