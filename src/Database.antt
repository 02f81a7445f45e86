-- ===== src/Database.antt =====
-- Database of collector/types.go and its operations in collector/database.go. What the Oracle driver
-- answers (connect, ping, acquiring a pooled connection) is an argument, and so is `time.Now()`.
pub mod Pool
pub mod Availability
pub mod Leak
use harry_performance_scrape.Prelude.{
  ℕ, suc, Bool, true, false, not, Option, none, some, String, List, [], ◌∷◌, ◌++◌, if◌then◌else◌,
  ◌==◌, nat_eq,
}
use harry_performance_scrape.Prelude.Int.{ℤ, pos}
use harry_performance_scrape.Clock.{Time}
use harry_performance_scrape.Texts.{Text, text, text_eq}
use harry_performance_scrape.Errors.{Error, session_not_initialized, new_error}
use harry_performance_scrape.Failure.{is_connection_failure}
use harry_performance_scrape.Config.Connect.{ConnectConfig}
use harry_performance_scrape.Connection.{State, Status, initial, quarantine, activate, message_of}
use Pool.{Attempt, warmup_session}

-- A session is the identity of a pool. `up` is the source's float 0 or 1.
pub record Database : Type 0 where
  pub name : String
  pub up : ℕ
  pub session : Option ℕ
  pub config : ConnectConfig
  pub connect_err : Option Error
  pub startup_ready : Bool
  pub activity_error : Text
  pub connection : Status

unfoldable pub err_session_not_initialized : Error
err_session_not_initialized = record {
  message = text "database session is not initialized";
  causes = session_not_initialized ∷ [];
}

-- NewDatabase, with what `connect` returned.
unfoldable pub new_database : String → ConnectConfig → Option ℕ → Option Error → Database
new_database name config session err = record {
  name = name;
  up = 0;
  session = session;
  config = config;
  connect_err = err;
  startup_ready = false;
  activity_error = [];
  connection = initial;
}

abbrev pub set_up : ℕ → Database → Database
set_up u d = record d { up = u }

-- quarantine, under the lock
abbrev pub quarantine_database : Option Error → Time → Database → Database
quarantine_database err now d = record d { connection = quarantine err now d.connection }

unfoldable pub suspend_activity : Option Error → Database → Database
suspend_activity err d = record d { activity_error = message_of err }

abbrev pub resume_activity : Database → Database
resume_activity d = record d { activity_error = [] }

-- activityUnavailable: the error, if activity is suspended.
unfoldable pub activity_unavailable : Database → Option Error
activity_unavailable d =
    if d.activity_error == []
    then none
    else some (
        new_error
          (text "activity collection suspended until connectivity recovers: " ++ d.activity_error))

-- The three calls that follow each failure.
unfoldable pub take_down : Option Error → Time → Database → Database
unfolding suspend_activity
take_down err now d = suspend_activity err (quarantine_database err now (set_up 0 d))

-- The end of WarmupConnectionPool, by the error of warmupSession.
unfoldable pub after_warmup : Option Error → Time → Database → Database × Option Error
unfolding take_down
after_warmup (some e) now d = (take_down (some e) now d, some e)
after_warmup none now d =
    (resume_activity (record (set_up 1 d) { connection = activate now d.connection }), none)

-- WarmupConnectionPool without its deferred store of `startupReady`.
unfoldable pub warmup_or_fail : Attempt → Time → Database → Database × Option Error
unfolding after_warmup
warmup_or_fail env now d = elim d.session [
  | none ↦
      let e : Error = elim d.connect_err [ some c ↦ c | none ↦ err_session_not_initialized ] in
      (take_down d.connect_err now d, some e)
  | some session ↦ after_warmup (warmup_session env d.config).error now d
]

-- WarmupConnectionPool: `startupReady` is stored on every return.
unfoldable pub warmup_connection_pool : Attempt → Time → Database → Database × Option Error
unfolding warmup_or_fail
warmup_connection_pool env now d =
    let (d', e) = warmup_or_fail env now d in (record d' { startup_ready = true }, e)

-- What a call of `reconnect` leaves: the database, the error, and the sessions that it closed.
pub record Reconnected : Type 0 where
  pub database : Database
  pub error : Option Error
  pub closed : List ℕ

-- The failing returns of `reconnect`.
unfoldable pub reconnect_failed : Error → List ℕ → Database → Reconnected
unfolding suspend_activity
reconnect_failed e closed d = record {
  database = suspend_activity (some e) (record d { connect_err = some e; up = 0 });
  error = some e;
  closed = closed;
}

abbrev pub replaced : Option ℕ → Option ℕ → List ℕ
replaced none new = []
replaced (some o) new = elim new [ none ↦ o ∷ [] | some n ↦ if o == n then [] else o ∷ [] ]

abbrev pub listed : Option ℕ → List ℕ
listed none = []
listed (some n) = n ∷ []

-- The rest of `reconnect` once `connect` has returned a session without an error; warmupSession
-- refuses a nil session.
unfoldable pub reconnect_warmed : Attempt → Option Error → Database → Reconnected
unfolding reconnect_failed
reconnect_warmed env (some e) d = reconnect_failed e (listed env.session) d
reconnect_warmed env none d = record {
  database = resume_activity (record d { session = env.session; connect_err = none; up = 1 });
  error = none;
  closed = replaced d.session env.session;
}

-- warmupSession on the session that `connect` returned; it refuses a nil one.
unfoldable pub warm_error : Option ℕ → Attempt → ConnectConfig → Option Error
warm_error none env c = some err_session_not_initialized
warm_error (some session) env c = (warmup_session env c).error

unfoldable pub reconnect : Attempt → Database → Reconnected
unfolding reconnect_warmed warm_error
reconnect env d = elim env.connect_err [
  | some e ↦ reconnect_failed e [] d
  | none ↦ reconnect_warmed env (warm_error env.session env d.config) d
]

-- PingContext, with the driver's answer.
unfoldable pub ping_context : Option Error → Database → Option Error
ping_context answer d = elim d.session [
  | none ↦ some err_session_not_initialized
  | some session ↦ answer
]

-- ping, by the error of PingContext.
unfoldable pub after_ping : Option Error → Time → Database → Database × Option Error
unfolding take_down
after_ping (some e) now d = (take_down (some e) now d, some e)
after_ping none now d = (resume_activity (set_up 1 d), none)

unfoldable pub ping : Option Error → Time → Database → Database × Option Error
unfolding after_ping ping_context
ping answer now d = after_ping (ping_context answer d) now d

unfoldable pub quarantine_connection_failure : Option Error → Time → Database → Database × Bool
unfolding take_down
quarantine_connection_failure err now d =
    if not (is_connection_failure err) then (d, false) else (take_down err now d, true)

-- Query and QueryContext: the error, or the driver's rows. While rows are open the database's read
-- lock is held; it is released on every error.
pub data Answer {ℓ} (A : Type ℓ) : Type ℓ where
  rows : A → Answer A
  failed : Error → Answer A

unfoldable pub query_context {ℓ} : {A : Type ℓ} → Answer A → Database → Answer A
query_context answer d = elim d.session [
  | none ↦ failed (elim d.connect_err [ some e ↦ e | none ↦ err_session_not_initialized ])
  | some session ↦ answer
]
