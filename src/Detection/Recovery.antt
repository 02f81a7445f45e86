-- ===== src/Detection/Recovery.antt =====
-- A probe of collector/dead_connection_detection.go returns a database to service or keeps it queued.
use harry_performance_scrape.Prelude.{
  ℕ, ◌≡◌, ◌≢◌, refl, ◌⊎◌, inl, inr, true, Option, none, some, List, [], arith, is_some,
  Option-cases, ap,
}
use harry_performance_scrape.Clock.{Time}
use harry_performance_scrape.Errors.{Error}
use harry_performance_scrape.Connection.{
  probing, quarantined, Status, quarantine, begin_probe, finish_probe,
}
use harry_performance_scrape.Database.{
  Database, reconnect, reconnect_failed, reconnect_warmed, warm_error, listed, suspend_activity,
  Reconnected, err_session_not_initialized,
}
use harry_performance_scrape.Config.Connect.{ConnectConfig}
use harry_performance_scrape.Database.Pool.{Attempt}
use harry_performance_scrape.Database.Availability.{
  Says, SaysAttempt, InService, OutOfService, warmup_session-Says,
}
use harry_performance_scrape.Detection.{Turn, probe, finished}

-- What `reconnect` promises of a started database.
pub record Reconnects (d : Database) (r : Reconnected) : Type 0 where
  pub connection : r.database.connection ≡ d.connection
  pub name : r.database.name ≡ d.name
  pub ready : r.database.startup_ready ≡ d.startup_ready
  pub fine :
      r.error ≡ none
      → (r.database.up ≡ 1) × (is_some r.database.session ≡ true) × (r.database.activity_error ≡ [])
  pub bad :
      (e : Error)
      → r.error ≡ some e
      → (r.database.up ≡ 0)
        × (r.database.activity_error ≡ e.message)
        × (r.database.session ≡ d.session)

reconnect_failed-Reconnects :
    (e : Error) (closed : List ℕ) (d : Database) → Reconnects d (reconnect_failed e closed d)
unfolding reconnect_failed suspend_activity
reconnect_failed-Reconnects e closed d = record {
  connection = refl;
  name = refl;
  ready = refl;
  fine = λ h. cc;
  bad = λ f h. ground arith;
}

reconnect_warmed-Reconnects :
    (env : Attempt) (w : Option Error) (d : Database)
    → (w ≡ none → is_some env.session ≡ true)
    → Reconnects d (reconnect_warmed env w d)
unfolding reconnect_warmed
reconnect_warmed-Reconnects env none d h = record {
  connection = refl;
  name = refl;
  ready = refl;
  fine = λ k. (refl, h refl, refl);
  bad = λ f k. cc;
}
reconnect_warmed-Reconnects env (some e) d h = reconnect_failed-Reconnects e (listed env.session) d

warm_error_fine :
    (session : Option ℕ) (env : Attempt) (c : ConnectConfig)
    → warm_error session env c ≡ none
    → is_some session ≡ true
unfolding warm_error
warm_error_fine none env c h = cc
warm_error_fine (some n) env c h = refl

pub reconnect-Reconnects : (env : Attempt) (d : Database) → Reconnects d (reconnect env d)
unfolding reconnect
reconnect-Reconnects env d = elim (Option-cases env.connect_err) [
  | inr (e, failed) ↦ rw (failed, reconnect) (reconnect_failed-Reconnects e [] d)
  | inl connected ↦
      rw (connected, reconnect)
        (reconnect_warmed-Reconnects env _ d (warm_error_fine env.session env d.config))
]

reconnect_warmed-Says :
    (env : Attempt) (w : Option Error) (d : Database)
    → Says w
    → Says (reconnect_warmed env w d).error
unfolding reconnect_warmed reconnect_failed
reconnect_warmed-Says env none d h = tt
reconnect_warmed-Says env (some e) d h = h

nil_session-Says : Says (some err_session_not_initialized)
unfolding err_session_not_initialized
nil_session-Says = ground arith

warm_error-Says :
    (session : Option ℕ) (env : Attempt) (c : ConnectConfig)
    → SaysAttempt env
    → Says (warm_error session env c)
unfolding warm_error
warm_error-Says none env c h = nil_session-Says
warm_error-Says (some n) env c h = warmup_session-Says env c h

reconnect-Says : (env : Attempt) (d : Database) → SaysAttempt env → Says (reconnect env d).error
unfolding reconnect reconnect_failed
reconnect-Says env d h = elim (Option-cases env.connect_err) [
  | inr (e, failed) ↦ rw (failed, reconnect) (rw failed at h.0)
  | inl connected ↦
      rw (connected, reconnect)
        (reconnect_warmed-Says env _ d (warm_error-Says env.session env d.config h))
]

finished-IsSettled :
    (turn : Turn) (d : Database) (r : Reconnected)
    → Reconnects d r
    → Says r.error
    → d.startup_ready ≡ true
    → is_some d.connection.queued_at ≡ true
    → d.connection.state ≡ probing
    → ((r.error ≡ none) × InService (finished turn r))
      ⊎ ((e : Error) × (r.error ≡ some e) × OutOfService (finished turn r))
unfolding finished finish_probe quarantine
finished-IsSettled turn d r rec says ready queued at = elim (Option-cases r.error) [
  | inl ok ↦ inl (ok, ground (arith, rec.fine ok, rec.connection, rec.ready))
  | inr (e, err) ↦
      let says' : e.message ≢ [] = rw err at says in
      inr (e, err, ground (arith, rec.bad e err, rec.connection, rec.ready))
]

abbrev pub begun : Turn → Database → Database
begun turn d = record d { connection = (begin_probe turn.started d.connection).0 }

begin_probe_quarantined :
    (t : Time) (s : Status)
    → s.state ≡ quarantined
    → ((begin_probe t s).1 ≡ true)
      × ((begin_probe t s).0.state ≡ probing)
      × ((begin_probe t s).0.queued_at ≡ s.queued_at)
unfolding begin_probe
begin_probe_quarantined t s h = ground arith

probe_quarantined :
    (turn : Turn) (d : Database)
    → d.connection.state ≡ quarantined
    → probe turn d ≡ (
      finished turn (reconnect turn.attempt (begun turn d)),
      some (reconnect turn.attempt (begun turn d)).error,
    )
unfolding probe
probe_quarantined turn d h =
    let (may, _, _) = begin_probe_quarantined turn.started d.connection h in rw may

-- Where each error that the driver may answer with has a message that is not empty, a probe of a database
-- out of service ends with it in service or out of service again; and it is in service exactly when the
-- probe reports no error.
pub probe-IsSettled :
    (turn : Turn) (d : Database)
    → SaysAttempt turn.attempt
    → OutOfService d
    → (((probe turn d).1 ≡ some none) × InService (probe turn d).0)
      ⊎ ((e : Error) × ((probe turn d).1 ≡ some (some e)) × OutOfService (probe turn d).0)
probe-IsSettled turn d says out =
    let (_, at, kept) = begin_probe_quarantined turn.started d.connection out.state in
    let queued : is_some (begun turn d).connection.queued_at ≡ true = rw kept out.queued in
    rw (probe_quarantined turn d out.state)
      (elim (finished-IsSettled turn (begun turn d) (reconnect turn.attempt (begun turn d))
        (reconnect-Reconnects turn.attempt (begun turn d))
        (reconnect-Says turn.attempt (begun turn d) says) out.ready queued at) [
          | inl (ok, h) ↦ inl (ap some ok, h)
          | inr (e, err, h) ↦ inr (e, ap some err, h)
        ])
