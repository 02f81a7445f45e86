-- ===== src/Status.antt =====
-- ScrapeStatusSample of collector/samples.go and its constructors in collector/operational.go.
use harry_performance_scrape.Prelude.{
  ℕ, ◌≤◌, ◌≡◌, refl, Bool, not, Option, none, some, String, arith, is_some, length, subst,
}
use harry_performance_scrape.Clock.{Time, Duration}
use harry_performance_scrape.Texts.{Text, truncated, length-truncated-le}
use mathlib.Core.Option.{some-injective}
use harry_performance_scrape.Errors.{Error}

-- A duration in seconds stands as the duration itself; the source's float64 is not modelled.
pub record ScrapeStatusSample : Type 0 where
  pub collected_at : Time
  pub database : String
  pub collector : String
  pub success : Bool
  pub duration : Duration
  pub sample_count : ℕ
  pub error_message : Option Text

abbrev pub max_error_length : ℕ
max_error_length = 2048

abbrev pub error_message_of : Option Error → Option Text
error_message_of none = none
error_message_of (some e) = some (truncated max_error_length e.message)

-- newScrapeStatusWithDuration; newScrapeStatus passes the time since the start.
unfoldable pub new_scrape_status :
    Time → String → String → Duration → ℕ → Option Error → ScrapeStatusSample
new_scrape_status collected d c elapsed count err = record {
  collected_at = collected;
  database = d;
  collector = c;
  success = not (is_some err);
  duration = elapsed;
  sample_count = count;
  error_message = error_message_of err;
}

-- A status is a success exactly when it carries no message, and a message has at most 2048 bytes.
pub new_scrape_status_message :
    (t : Time) (d c : String) (elapsed : Duration) (n : ℕ) (err : Option Error)
    → let s = new_scrape_status t d c elapsed n err in
      (s.success ≡ not (is_some s.error_message))
      × ((m : Text) → s.error_message ≡ some m → length m ≤ max_error_length)
unfolding new_scrape_status
new_scrape_status_message t d c elapsed n none = (refl, λ m h. ground arith)
new_scrape_status_message t d c elapsed n (some e) = (
  refl,
  λ m h.
      subst (λ t. length t ≤ max_error_length) (some-injective _ _ h)
        (length-truncated-le max_error_length e.message),
)
