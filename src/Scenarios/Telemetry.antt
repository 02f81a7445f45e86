-- ===== src/Scenarios/Telemetry.antt =====
-- Runs of the scheduling telemetry, the scrape statuses and the alert-log backoff.
use harry_performance_scrape.Prelude.{
  ◌+◌, ◌*◌, ◌^◌, ◌≡◌, true, false, none, List, [], ◌∷◌, ◌++◌, arith, string_eq, ltb, length, min,
  if◌then◌else◌,
}
use harry_performance_scrape.Prelude.Int.{pos}
use harry_performance_scrape.Clock.{Time, second, minute}
use harry_performance_scrape.Texts.{text}
use harry_performance_scrape.Errors.{Error, wrap_error}
use harry_performance_scrape.Errors.ZeroResult.{
  new_zero_result_error, should_log_scrape_error, should_log_scrape_error-new_zero_result_error,
}
use harry_performance_scrape.Status.{ScrapeStatusSample, new_scrape_status}
use harry_performance_scrape.Runtime.{Instance, Cycle}
use harry_performance_scrape.Retry.{should_retry, record_success, max_retry_backoff}
use harry_performance_scrape.Retry.Backoff.{failures, should_retry_after_failures}

abbrev lost : Error
lost = record { message = text "ORA-03113: end-of-file"; causes = [] }

abbrev fine : ScrapeStatusSample
fine = new_scrape_status 100 "orcl" "sql" (pos 5) 3 none

abbrev instance_1 : Instance
instance_1 = record { instance_name = "host:1"; scope = text "default"; databases = 2 }

abbrev cycle : Cycle
cycle = record {
  scheduler = "performance";
  trigger = "ticker";
  scheduled_at = 5 * second;
  started_at = 36 * second;
  collection_finished_at = 37 * second;
  interval = pos (10 * second);
  query_timeout = none;
  missed = pos 0;
  statuses = fine ∷ [];
  completion_collector = "sql";
  sample_count = 3;
  error_count = 0;
}

abbrev ticks : List Time
ticks = 1 ∷ 2 ∷ []

-- Three failures in a row: four minutes.
should_retry_after_failures_example :
    let tried = failures (record_success [] "orcl") "orcl" (ticks ++ (3 ∷ [])) in
    let until = 3 + min max_retry_backoff (minute * 2 ^ length ticks) in
    should_retry tried "orcl" 9 ≡ (if ltb 9 until then (false, until) else (true, 0))
should_retry_after_failures_example = should_retry_after_failures [] "orcl" ticks 3 9

should_log_scrape_error-new_zero_result_error_example :
    should_log_scrape_error 8 (wrap_error (text "scrape: ") (new_zero_result_error 3).0) true ≡ true
should_log_scrape_error-new_zero_result_error_example =
    should_log_scrape_error-new_zero_result_error 3 8 (text "scrape: ") true (omega arith)
