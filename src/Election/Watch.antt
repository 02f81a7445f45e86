-- ===== src/Election/Watch.antt =====
-- What it says of the lock that Monitor of ha/election.go still runs.
use harry_performance_scrape.Prelude.{
  ◌≡◌, Bool, true, false, none, some, List, [], ◌∷◌, ◌++◌, if◌then◌else◌, arith,
}
use harry_performance_scrape.Texts.{text}
use harry_performance_scrape.Errors.{Error, new_error}
use harry_performance_scrape.Election.{
  Session, Locks, Tick, cancelled, closing, failed, primary, close, watch, monitor,
}

-- What happens around a leader: another session tries the lock, the server ends the leader's session, the
-- leader calls Close, its context is done, or its ticker asks the server, which answers or fails to.
pub data Happening : Type 0 where
  tried : Session → Happening
  lost closed done : Happening
  asked : Bool → Happening
  unanswered : Error → Happening

abbrev broken_session : Error
broken_session = new_error (text "conn closed")

-- What Monitor meets of it, by whether the server has ended the session: a query on it fails then. What is
-- answered after Close is left open, since Monitor must not ask.
unfoldable pub ticks_of : Bool → List Happening → List Tick
ticks_of ended [] = []
ticks_of ended (tried d ∷ hs) = ticks_of ended hs
ticks_of ended (lost ∷ hs) = ticks_of true hs
ticks_of ended (closed ∷ hs) = closing ∷ ticks_of ended hs
ticks_of ended (done ∷ hs) = cancelled ∷ ticks_of ended hs
ticks_of ended (asked answer ∷ hs) =
    (if ended then failed broken_session else primary answer) ∷ ticks_of ended hs
ticks_of ended (unanswered e ∷ hs) = failed e ∷ ticks_of ended hs

-- After Close, Monitor ends at the next turn of the ticker at the latest, whatever the answer is.
closed_watch :
    (ended : Bool) (hs : List Happening) (answer : Bool)
    → watch none (ticks_of ended (hs ++ asked answer ∷ [])) ≡ none
    → ⊥
unfolding watch ticks_of
closed_watch true [] answer h = ground arith
closed_watch false [] true h = ground arith
closed_watch false [] false h = ground arith
closed_watch ended (tried d ∷ hs) answer h = closed_watch ended hs answer h
closed_watch ended (lost ∷ hs) answer h = closed_watch true hs answer h
closed_watch ended (closed ∷ hs) answer h = closed_watch ended hs answer h
closed_watch ended (done ∷ hs) answer h = ground arith
closed_watch true (asked b ∷ hs) answer h = ground arith
closed_watch false (asked true ∷ hs) answer h = ground arith
closed_watch false (asked false ∷ hs) answer h = ground arith
closed_watch ended (unanswered e ∷ hs) answer h = ground arith

-- With its session ended by the server, it does so too.
lost_watch :
    (c : Session) (hs : List Happening) (answer : Bool)
    → watch (some c) (ticks_of true (hs ++ asked answer ∷ [])) ≡ none
    → ⊥
unfolding watch ticks_of
lost_watch c [] answer h = ground arith
lost_watch c (tried d ∷ hs) answer h = lost_watch c hs answer h
lost_watch c (lost ∷ hs) answer h = lost_watch c hs answer h
lost_watch c (closed ∷ hs) answer h = closed_watch true hs answer h
lost_watch c (done ∷ hs) answer h = ground arith
lost_watch c (asked b ∷ hs) answer h = ground arith
lost_watch c (unanswered e ∷ hs) answer h = ground arith

module _ (pg : Locks) (c : Session) where
  open pg use {State, holds, try_lock, end_session, kept}

  -- The server's locks after it.
  pub locks_after : List Happening → State → State
  unfolding close
  locks_after [] s = s
  locks_after (tried d ∷ hs) s = locks_after hs (try_lock d s).0
  locks_after (lost ∷ hs) s = locks_after hs (end_session c s)
  locks_after (closed ∷ hs) s = locks_after hs (close pg (some c) s).0
  locks_after (done ∷ hs) s = locks_after hs s
  locks_after (asked answer ∷ hs) s = locks_after hs s
  locks_after (unanswered e ∷ hs) s = locks_after hs s

  watch_running :
      (hs : List Happening) (answer : Bool) (s : State)
      → holds c s ≡ true
      → watch (some c) (ticks_of false (hs ++ asked answer ∷ [])) ≡ none
      → holds c (locks_after hs s) ≡ true
  unfolding watch ticks_of locks_after
  watch_running [] answer s held h = held
  watch_running (tried d ∷ hs) answer s held h =
      watch_running hs answer (try_lock d s).0 (kept d c s held) h
  watch_running (lost ∷ hs) answer s held h = absurd (lost_watch c hs answer h)
  watch_running (closed ∷ hs) answer s held h = absurd (closed_watch false hs answer h)
  watch_running (done ∷ hs) answer s held h = absurd (ground arith)
  watch_running (asked true ∷ hs) answer s held h = watch_running hs answer s held h
  watch_running (asked false ∷ hs) answer s held h = absurd (ground arith)
  watch_running (unanswered e ∷ hs) answer s held h = absurd (ground arith)

-- Where Monitor still runs after a turn of the ticker, the leader holds the lock at that turn, whatever
-- other sessions tried and whatever happened before: the server has not ended its session, and nobody has
-- called Close. What is relied on is that PostgreSQL keeps the lock of a session until it ends, and that a
-- query on a session that has ended fails.
pub monitor-holds :
    (pg : Locks) (c : Session) (hs : List Happening) (answer : Bool) (s : pg.State)
    → pg.holds c s ≡ true
    → monitor (some c) (ticks_of false (hs ++ asked answer ∷ [])) ≡ none
    → pg.holds c (locks_after pg c hs s) ≡ true
unfolding monitor
monitor-holds pg c hs answer s held h = watch_running pg c hs answer s held h
