-- ===== src/Election.antt =====
-- Elector of ha/election.go: leadership by a PostgreSQL advisory lock that a dedicated session holds.
-- PostgreSQL's locks are a parameter; the sessions are numbers, and no two are the same.
pub mod Exclusion
pub mod Watch
pub mod Leadership
pub mod Rounds
use harry_performance_scrape.Prelude.{
  ℕ, suc, ◌≡◌, ◌≢◌, Bool, true, false, Option, none, some, List, [], ◌∷◌, if◌then◌else◌, eqb,
}
use harry_performance_scrape.Texts.{Text, text}
use harry_performance_scrape.Errors.{Error, new_error, wrap_error}

abbrev pub Session : Type 0
Session = ℕ

-- Session-level advisory locks on one key, as PostgreSQL documents them: `pg_try_advisory_lock` gives
-- the lock only if no other session holds it, and a session keeps it until the session ends.
pub record Locks : Type 1 where
  pub State : Type 0
  pub holds : Session → State → Bool
  pub try_lock : Session → State → State × Bool
  pub end_session : Session → State → State
  pub given : (c : Session) (s : State) → (try_lock c s).1 ≡ true → holds c (try_lock c s).0 ≡ true
  pub granted :
      (c d : Session) (s : State)
      → (try_lock c s).1 ≡ true
      → holds d (try_lock c s).0 ≡ true
      → d ≡ c
  pub refused :
      (c d : Session) (s : State)
      → (try_lock c s).1 ≡ false
      → holds d (try_lock c s).0 ≡ true
      → holds d s ≡ true
  pub kept : (c d : Session) (s : State) → holds d s ≡ true → holds d (try_lock c s).0 ≡ true
  pub ended : (c : Session) (s : State) → holds c (end_session c s) ≡ false
  pub kept_other :
      (c d : Session) (s : State) → d ≢ c → holds d s ≡ true → holds d (end_session c s) ≡ true
  pub ended_other :
      (c d : Session) (s : State) → holds d (end_session c s) ≡ true → holds d s ≡ true

-- How one round of the loop of Acquire goes: no connection; a server that is no writable primary; an
-- error of the query, which may come before or after the lock was given; or an answer.
pub data Round : Type 0 where
  no_connection standby error_before error_after answered : Round

-- How Acquire stands: the leader with its session, given up with the error of the context, or in its
-- loop still.
pub data Acquired : Type 0 where
  leading : Session → Acquired
  gave_up waiting : Acquired

module _ (pg : Locks) where
  open pg use {State, try_lock, end_session}

  -- One round with a fresh session: the server after it, and the connection kept as the leader's. Any
  -- other connection is closed.
  unfoldable pub acquire_round : Round → Session → State → State × Option Session
  acquire_round no_connection c s = (s, none)
  acquire_round standby c s = (end_session c s, none)
  acquire_round error_before c s = (end_session c s, none)
  acquire_round error_after c s = (end_session c (try_lock c s).0, none)
  acquire_round answered c s =
      let (s', acquired) = try_lock c s in
      if acquired then (s', some c) else (end_session c s', none)

  -- Acquire, with its rounds as they will go and whether the context is done in the wait after each.
  -- Each round has a session of its own.
  unfoldable pub acquire : List (Round × Bool) → Session → State → State × Acquired
  unfolding acquire_round
  acquire [] c s = (s, waiting)
  acquire ((r, done) ∷ rounds) c s =
      let (s', kept) = acquire_round r c s in
      let (s'', later) = acquire rounds (suc c) s' in
      elim kept [ some d ↦ (s', leading d) | none ↦ if done then (s', gave_up) else (s'', later) ]

  -- Close
  unfoldable pub close : Option Session → State → State × Option Session
  close none s = (s, none)
  close (some c) s = (end_session c s, none)

-- What happens while Monitor runs: its context is done; Close, called by another goroutine; or a turn of
-- the ticker, at which the query fails or the server answers whether it is a writable primary.
pub data Tick : Type 0 where
  cancelled : Tick
  closing : Tick
  failed : Error → Tick
  primary : Bool → Tick

abbrev pub canceled_error : Error
canceled_error = new_error (text "context canceled")

-- The check of `e.conn` at a turn of the ticker, under the mutex: without a connection nothing is asked.
abbrev pub unless_closed : Option Session → Option Error → Option Error
unless_closed none later = some (new_error (text "PostgreSQL HA leadership connection is closed"))
unless_closed (some c) later = later

-- The loop of Monitor, from `e.conn`; `none` while it still runs. Close leaves no connection.
unfoldable pub watch : Option Session → List Tick → Option Error
watch conn [] = none
watch conn (cancelled ∷ ticks) = some canceled_error
watch conn (closing ∷ ticks) = watch none ticks
watch conn (failed e ∷ ticks) =
    unless_closed conn (some (wrap_error (text "validate PostgreSQL HA leadership connection: ") e))
watch conn (primary false ∷ ticks) = unless_closed conn (
    some
      (new_error (text "PostgreSQL HA leadership connection is no longer on a writable primary")))
watch conn (primary true ∷ ticks) = unless_closed conn (watch conn ticks)

unfoldable pub monitor : Option Session → List Tick → Option Error
unfolding watch
monitor none ticks = some (new_error (text "PostgreSQL HA leadership has not been acquired"))
monitor (some c) ticks = watch (some c) ticks
