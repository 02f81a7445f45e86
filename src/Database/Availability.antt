-- ===== src/Database/Availability.antt =====
-- How a database's `Up`, connection state and activity gate go together (collector/database.go).
use harry_performance_scrape.Prelude.{
  ℕ, zero, suc, ◌≡◌, ◌≢◌, ◌⊎◌, inl, inr, true, Option, none, some, [], arith, is_some, Option-cases,
  Bool-cases,
}
use harry_performance_scrape.Prelude.Int.{pos_part}
use harry_performance_scrape.Clock.{Time}
use harry_performance_scrape.Errors.{Error}
use harry_performance_scrape.Config.Connect.{ConnectConfig}
use harry_performance_scrape.Failure.{is_connection_failure}
use harry_performance_scrape.Connection.{active, quarantined, quarantine, activate}
use harry_performance_scrape.Database.{
  Database, after_warmup, warmup_or_fail, warmup_connection_pool, ping,
  quarantine_connection_failure, take_down,
}
use harry_performance_scrape.Database.Pool.{
  Attempt, Warmup, pool_size, acquire_all, returned, warmup_session,
}

-- An error says something: its message is not empty.
abbrev pub Says : Option Error → Type 0
Says none = Unit
Says (some e) = e.message ≢ []

-- In service.
pub record InService (d : Database) : Type 0 where
  pub ready : d.startup_ready ≡ true
  pub up : d.up ≡ 1
  pub state : d.connection.state ≡ active
  pub not_queued : d.connection.queued_at ≡ none
  pub connected : is_some d.session ≡ true

-- Out of service: queued for recovery, with its activity suspended.
pub record OutOfService (d : Database) : Type 0 where
  pub ready : d.startup_ready ≡ true
  pub down : d.up ≡ 0
  pub state : d.connection.state ≡ quarantined
  pub queued : is_some d.connection.queued_at ≡ true
  pub suspended : d.activity_error ≢ []

abbrev pub IsSettled : Database → Type 0
IsSettled d = InService d ⊎ OutOfService d

abbrev pub SaysAttempt : Attempt → Type 0
SaysAttempt env = Says env.connect_err × Says env.ping × ((k : ℕ) → Says (env.acquire k))

take_down-OutOfService :
    (err : Option Error) (now : Time) (d : Database)
    → Says err
    → d.startup_ready ≡ true
    → OutOfService (take_down err now d)
unfolding take_down quarantine
take_down-OutOfService none now d h r = ground arith
take_down-OutOfService (some e) now d h r = ground arith

acquire_all-Says :
    (acquire : ℕ → Option Error) (rounds i : ℕ)
    → ((k : ℕ) → Says (acquire k))
    → Says (acquire_all acquire rounds i).error
unfolding acquire_all
acquire_all-Says acquire zero i h = tt
acquire_all-Says acquire (suc rounds) i h = elim (Option-cases (acquire (suc i))) [
  | inl fine ↦ rw (fine, acquire_all) (acquire_all-Says acquire rounds (suc i) h)
  | inr (e, bad) ↦ rw (bad, acquire_all) (rw bad at (h (suc i)))
]

returned-Says : (w : Warmup) → Says w.error → Says (returned w).error
returned-Says w h = elim (Option-cases w.error) [
  | inl fine ↦ rw fine tt
  | inr (e, bad) ↦ rw (bad, returned) h
]

pub warmup_session-Says :
    (env : Attempt) (c : ConnectConfig) → SaysAttempt env → Says (warmup_session env c).error
unfolding warmup_session
warmup_session-Says env c h = elim (Option-cases env.ping) [
  | inl fine ↦
      rw (fine, warmup_session)
        (returned-Says (acquire_all env.acquire (pos_part (pool_size c)) 0)
          (acquire_all-Says env.acquire (pos_part (pool_size c)) 0 h.2))
  | inr (e, bad) ↦ rw (bad, warmup_session) (rw bad at h.1)
]

-- A failing ping takes a database in service out of it, and a successful one leaves it in service.
pub ping-IsSettled :
    (answer : Option Error) (now : Time) (d : Database)
    → Says answer
    → InService d
    → IsSettled (ping answer now d).0
unfolding ping take_down quarantine
ping-IsSettled none now d says h = ground arith
ping-IsSettled (some e) now d says h = ground arith

-- A failing query takes a settled database out of service, or leaves it as it was if the error is
-- no connection failure.
pub quarantine_connection_failure-IsSettled :
    (err : Option Error) (now : Time) (d : Database)
    → Says err
    → IsSettled d
    → IsSettled (quarantine_connection_failure err now d).0
unfolding quarantine_connection_failure take_down quarantine
quarantine_connection_failure-IsSettled err now d says h =
    elim (Bool-cases (is_connection_failure err)) [
      | inl lost ↦ rw lost (
          inr
            (take_down-OutOfService err now d says (elim h [ inl a ↦ a.ready | inr b ↦ b.ready ])))
      | inr other ↦ rw other h
    ]

started-OutOfService :
    (err : Option Error) (now : Time) (d : Database)
    → Says err
    → OutOfService (record (take_down err now d) { startup_ready = true })
unfolding take_down quarantine
started-OutOfService none now d h = ground arith
started-OutOfService (some e) now d h = ground arith

after_warmup-IsSettled :
    (e : Option Error) (now : Time) (d : Database)
    → Says e
    → is_some d.session ≡ true
    → IsSettled (record (after_warmup e now d).0 { startup_ready = true })
unfolding after_warmup take_down quarantine activate
after_warmup-IsSettled none now d says h = ground arith
after_warmup-IsSettled (some e) now d says h = ground arith

-- Whatever the driver answers, the startup warmup settles the database: it is in service, or out of
-- it and queued for recovery.
pub warmup_connection_pool-IsSettled :
    (env : Attempt) (now : Time) (d : Database)
    → SaysAttempt env
    → Says d.connect_err
    → IsSettled (warmup_connection_pool env now d).0
unfolding warmup_connection_pool warmup_or_fail
warmup_connection_pool-IsSettled env now d says say = elim (Option-cases d.session) [
  | inl absent ↦ rw (absent, warmup_or_fail) (inr (started-OutOfService d.connect_err now d say))
  | inr (n, present) ↦
      rw (present, warmup_or_fail)
        (after_warmup-IsSettled (warmup_session env d.config).error now d
          (warmup_session-Says env d.config says) (rw present))
]
