-- ===== src/Connection.antt =====
-- The connection state of a database (DatabaseConnectionStatus of collector/types.go and its
-- operations in collector/database.go). `time.Now()` is an argument.
pub mod Lifecycle
pub mod History
use harry_performance_scrape.Prelude.{
  ℕ, Bool, true, false, ◌&&◌, ◌||◌, not, Option, none, some, String, List, [], ◌∷◌, if◌then◌else◌,
  is_some, refl, ◌≡◌,
}
use harry_performance_scrape.Prelude.Int.{ℤ, pos, add64}
use harry_performance_scrape.Clock.{Time, Duration, time_sub}
use harry_performance_scrape.Texts.{Text, text}
use harry_performance_scrape.Errors.{Error}

pub data State : Type 0 where
  starting active quarantined probing : State

abbrev pub state_text : State → Text
state_text starting = text "STARTING"
state_text active = text "ACTIVE"
state_text quarantined = text "QUARANTINED"
state_text probing = text "PROBING"

pub record Status : Type 0 where
  pub state : State
  pub queued_at : Option Time
  pub last_failure_at : Option Time
  pub last_failure : Text
  pub last_probe_at : Option Time
  pub last_probe_duration : Option Duration
  pub last_probe_error : Text
  pub probe_attempts : ℤ  -- int64
  pub recovered_at : Option Time

-- The status that NewDatabase gives.
unfoldable pub initial : Status
initial = record {
  state = starting;
  queued_at = none;
  last_failure_at = none;
  last_failure = [];
  last_probe_at = none;
  last_probe_duration = none;
  last_probe_error = [];
  probe_attempts = pos 0;
  recovered_at = none;
}

abbrev pub is_quarantined : State → Bool
is_quarantined quarantined = true
is_quarantined _ = false

abbrev pub is_probing : State → Bool
is_probing probing = true
is_probing _ = false

abbrev pub is_active : State → Bool
is_active active = true
is_active _ = false

abbrev pub message_of : Option Error → Text
message_of none = text "database connection is unavailable"
message_of (some e) = e.message

-- quarantineLocked
unfoldable pub quarantine : Option Error → Time → Status → Status
quarantine err now s =
    let waiting = is_quarantined s.state || is_probing s.state in
    record s {
      queued_at = if not (is_some s.queued_at) || not waiting then some now else s.queued_at;
      state = quarantined;
      last_failure_at = some now;
      last_failure = message_of err;
    }

unfoldable pub begin_probe : Time → Status → Status × Bool
begin_probe now s = if not (is_quarantined s.state) then (s, false) else (
  record s {
    state = probing;
    last_probe_at = some now;
    last_probe_duration = none;
    last_probe_error = [];
    probe_attempts = add64 s.probe_attempts (pos 1);
  },
  true,
)

unfoldable pub finish_probe : Time → Time → Option Error → Status → Status
unfolding quarantine
finish_probe now started none s = record s {
  last_probe_duration = some (time_sub now started);
  state = active;
  queued_at = none;
  last_probe_error = [];
  recovered_at = some now;
}
finish_probe now started (some e) s =
    quarantine (some e) now
      (record s { last_probe_duration = some (time_sub now started); last_probe_error = e.message })

-- `now` is not used by the source either.
unfoldable pub activate : Time → Status → Status
activate now s = record s { state = active; queued_at = none; last_probe_error = [] }

-- DatabaseConnectionStateSample of collector/samples.go.
pub record ConnectionStateSample : Type 0 where
  pub observed_at : Time
  pub database : String
  pub state : State
  pub queued_at : Option Time
  pub last_failure_at : Option Time
  pub last_failure : Option Text
  pub last_probe_at : Option Time
  pub last_probe_duration : Option Duration
  pub last_probe_error : Option Text
  pub probe_attempts : ℤ
  pub recovered_at : Option Time
  pub scraper_instance : String

-- An empty text is sent as NULL.
abbrev pub non_empty : Text → Option Text
non_empty [] = none
non_empty (c ∷ s) = some (c ∷ s)

-- connectionStateSample, of the database with this name.
unfoldable pub connection_state_sample : String → Time → String → Status → ConnectionStateSample
connection_state_sample name observed instance_name s = record {
  observed_at = observed;
  database = name;
  state = s.state;
  queued_at = s.queued_at;
  last_failure_at = s.last_failure_at;
  last_failure = non_empty s.last_failure;
  last_probe_at = s.last_probe_at;
  last_probe_duration = s.last_probe_duration;
  last_probe_error = non_empty s.last_probe_error;
  probe_attempts = s.probe_attempts;
  recovered_at = s.recovered_at;
  scraper_instance = instance_name;
}
