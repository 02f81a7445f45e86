-- ===== src/Scenarios/Sampling.antt =====
-- Runs of activity sampling and of an additional metric.
use harry_performance_scrape.Prelude.{
  ◌≡◌, ◌≢◌, refl, false, none, some, is_some, [], ◌∷◌, map, All, if◌then◌else◌, arith, length, inl,
  string_eq,
}
use harry_performance_scrape.Prelude.Int.{pos}
use harry_performance_scrape.Prelude.Dict.{Dict, lookup}
use harry_performance_scrape.Texts.{Text, text, text_eq, trim_space, to_lower}
use harry_performance_scrape.Errors.{Error}
use harry_performance_scrape.Config.Activity.{ActivityConfig, get_source}
use harry_performance_scrape.Database.{failed, rows, query_context}
use harry_performance_scrape.Database.Availability.{IsSettled, Says}
use harry_performance_scrape.Runtime.{Instance}
use harry_performance_scrape.Activity.{
  ActivityAnswers, Surroundings, Watermarks, Sampled, activity_results, sample_activity,
  scrape_activity_samples, scrape_ash_samples, activity_rows, activity_query_error,
}
use harry_performance_scrape.Activity.Rows.{AshRow}
use harry_performance_scrape.Activity.Watermarks.{
  newest, seen, moved_to, sample_activity-watermarks,
}
use harry_performance_scrape.Activity.Accounts.{
  failures, sample_counts, sample_activity_accounts, sample_activity-IsSettled,
}
use harry_performance_scrape.Collection.Query.{row}
use harry_performance_scrape.Metrics.{Metric}
use harry_performance_scrape.Metrics.Scraping.{Row, scrape_metric_samples}
use harry_performance_scrape.Metrics.Labels.{HasLabel, scrape_metric_samples-HasLabel}
use harry_performance_scrape.Profile.Query.{Fetch}
use harry_performance_scrape.Scenarios.Connections.{orcl, orcl-InService}

abbrev config : ActivityConfig
config = record { source = text "ASH"; interval = none; query_timeout = none }

abbrev seen_session : AshRow
seen_session = record {
  sample_id = pos 7;
  sample_time = 40;
  inst_id = pos 1;
  session_id = pos 33;
  serial_number = none;
  session_type = some "FOREGROUND";
  user_id = none;
  sql_id = some "a";
  sql_child_number = none;
  sql_exec_id = none;
  sql_exec_start = none;
  top_sql_id = none;
  session_state = none;
  event = none;
  wait_class = none;
  wait_time = none;
  time_waited = none;
  blocking_session = none;
  blocking_serial = none;
  blocking_inst_id = none;
  object_id = none;
  file_number = none;
  block_number = none;
  program = none;
  module_name = none;
  action = none;
  machine = none;
  pga = none;
  temp = none;
  con_id = none;
  usecs = none;
  plan_hash = none;
  full_plan_hash = none;
  plan_line_id = none;
  service_hash = none;
  client_id = none;
}

abbrev answers : ActivityAnswers
answers = record {
  sessions = record { answer = rows (record { scanned = []; err = none }); deadline = false };
  ash = λ since. record {
    answer = rows (record {
      scanned = row seen_session ∷ row (record seen_session { sample_time = 45 }) ∷ [];
      err = none;
    });
    deadline = false;
  };
}

abbrev env : Surroundings
env = record {
  answers = λ d. answers;
  elapsed = λ d. pos 3;
  at = 52;
  started = 50;
  finished = 55;
  sink = λ batch summary. none;
}

abbrev scraper : Instance
scraper = record { instance_name = "one"; scope = text "scope"; databases = 1 }

abbrev watermarks : Watermarks
watermarks = ("orcl", 30) ∷ []

abbrev cycle : Sampled
cycle = sample_activity env config scraper 50 (pos 0) "ticker" (orcl ∷ []) watermarks

sample_activity-watermarks_example : lookup "orcl" cycle.watermarks ≡ (
    if is_some (env.sink cycle.batch cycle.summary)
    then lookup "orcl" watermarks
    else moved_to
        (seen (newest "orcl" (activity_results env config watermarks 50 (orcl ∷ []))))
        (lookup "orcl" watermarks))
sample_activity-watermarks_example =
    sample_activity-watermarks env config scraper 50 (pos 0) "ticker" (orcl ∷ []) watermarks "orcl"

sample_activity_accounts_example :
    (map (λ s. s.database) cycle.batch.scrape_statuses ≡ map (λ d. d.name) (orcl ∷ []))
    × (cycle.summary.total_errors ≡ failures cycle.batch.scrape_statuses)
    × (length cycle.batch.performance.database_activity ≡ sample_counts cycle.batch.scrape_statuses)
sample_activity_accounts_example =
    sample_activity_accounts env config scraper 50 (pos 0) "ticker" (orcl ∷ []) watermarks

abbrev lost : Error
lost = record { message = text "ORA-03113: end-of-file on communication channel"; causes = [] }

-- The connection is lost in the query.
abbrev losing : Surroundings
losing = record env {
  answers =
      λ d. record answers { ash = λ since. record { answer = failed lost; deadline = false } };
}

lost_says : lost.message ≢ []
lost_says = ground arith

losing-Says : Says (scrape_activity_samples config (losing.answers orcl) watermarks orcl 50).1
unfolding scrape_activity_samples scrape_ash_samples activity_rows activity_query_error
    query_context get_source trim_space to_lower
losing-Says = lost_says

sample_activity-IsSettled_example :
    All IsSettled
      (sample_activity losing config scraper 50 (pos 0) "ticker" (orcl ∷ []) watermarks).databases
sample_activity-IsSettled_example =
    sample_activity-IsSettled losing config scraper 50 (pos 0) "ticker" (orcl ∷ []) watermarks
      (losing-Says, tt) (inl orcl-InService, tt)

abbrev metric : Metric
metric = record {
  id = text "sessions_value";
  context = text "sessions";
  labels = text "inst" ∷ [];
  metrics_desc = (text "value", text "Sessions") ∷ [];
  metrics_type = [];
  metrics_buckets = [];
  field_to_append = [];
  request = text "select inst, count(*) as value from v$session group by inst";
  ignore_zero_result = false;
  query_timeout = [];
  scrape_interval = [];
  databases = none;
}

-- A row that has a column by the name of the constant label.
abbrev metric_row : Row
metric_row =
    (text "INST", text "1") ∷ (text "VALUE", text "12") ∷ (text "DATABASE", text "other") ∷ []

abbrev metric_rows : Fetch Row
metric_rows = record {
  answer = rows (record { scanned = row metric_row ∷ []; err = none });
  deadline = false;
}

abbrev constants : Dict Text Text
constants = (text "database", text "orcl") ∷ []

scrape_metric_samples-HasLabel_example :
    All
      (HasLabel (text "database") (text "orcl"))
      (scrape_metric_samples (λ s. some 12) metric_rows orcl metric 50 constants 0 0).samples
scrape_metric_samples-HasLabel_example =
    scrape_metric_samples-HasLabel (λ s. some 12) metric_rows orcl metric 50 constants 0 0
      (text "database") (text "orcl") (unfold lookup in refl)
