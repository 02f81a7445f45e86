-- ===== src/Connection/Lifecycle.antt =====
-- The lifecycle of a connection: every interleaving of the operations of collector/database.go on
-- one status. The collectors quarantine, startup activates, and dead connection detection probes.
use harry_performance_scrape.Prelude.{
  ◌≡◌, refl, Bool, true, false, ◌||◌, Option, none, some, arith, is_some, List, [], ◌∷◌,
}
use harry_performance_scrape.Clock.{Time}
use harry_performance_scrape.Errors.{Error}
use harry_performance_scrape.Connection.{
  State, Status, initial, quarantine, begin_probe, finish_probe, activate, is_quarantined,
  is_probing, is_active,
}

-- One operation, each under the database's lock. A probe finishes only after it has begun, so the
-- detection loop alone calls `finish`; a quarantine may come between the two.
pub data Event : Type 0 where
  fail : Time → Option Error → Event
  begin : Time → Event
  finish : Time → Time → Option Error → Event
  start : Time → Event

unfoldable pub step : Status → Event → Status
unfolding quarantine begin_probe finish_probe activate
step s (fail now e) = quarantine e now s
step s (begin now) = (begin_probe now s).0
step s (finish now started e) = finish_probe now started e s
step s (start now) = activate now s

unfoldable pub run : Status → List Event → Status
run s [] = s
run s (e ∷ es) = run (step s e) es

abbrev pub is_waiting : State → Bool
is_waiting s = is_quarantined s || is_probing s

-- A database is queued for recovery exactly while it is quarantined or probed.
abbrev pub IsQueuedRight : Status → Type 0
IsQueuedRight s = is_some s.queued_at ≡ is_waiting s.state

step-IsQueuedRight : (s : Status) (e : Event) → IsQueuedRight s → IsQueuedRight (step s e)
unfolding step
step-IsQueuedRight s (fail now e) h = ground arith
step-IsQueuedRight s (begin now) h = ground arith
step-IsQueuedRight s (finish now started none) h = ground arith
step-IsQueuedRight s (finish now started (some e)) h = ground arith
step-IsQueuedRight s (start now) h = ground arith

run-IsQueuedRight' : (s : Status) (es : List Event) → IsQueuedRight s → IsQueuedRight (run s es)
unfolding run
run-IsQueuedRight' s [] h = h
run-IsQueuedRight' s (e ∷ es) h = run-IsQueuedRight' (step s e) es (step-IsQueuedRight s e h)

-- Whatever the interleaving of operations since NewDatabase, a queue time is recorded exactly while
-- the database is quarantined or probed.
pub run-IsQueuedRight : (es : List Event) → IsQueuedRight (run initial es)
unfolding initial
run-IsQueuedRight es = run-IsQueuedRight' initial es refl

-- The events that put a database back into normal collection.
abbrev pub restores : Event → Bool
restores (finish _ _ none) = true
restores (start _) = true
restores _ = false

-- No event but a successful probe or the end of startup makes an inactive database active.
pub step_active :
    (s : Status) (e : Event)
    → is_active s.state ≡ false
    → is_active (step s e).state ≡ true
    → restores e ≡ true
unfolding step
step_active s (fail now e) h k = ground arith
step_active s (begin now) h k = ground arith
step_active s (finish now started none) h k = refl
step_active s (finish now started (some e)) h k = ground arith
step_active s (start now) h k = refl

abbrev any_restores : List Event → Bool
any_restores [] = false
any_restores (e ∷ es) = restores e || any_restores es

step-queued_at :
    (s : Status) (e : Event) (t : Time)
    → restores e ≡ false
    → is_waiting s.state ≡ true
    → s.queued_at ≡ some t
    → (is_waiting (step s e).state ≡ true) × ((step s e).queued_at ≡ some t)
unfolding step
step-queued_at s (fail now e) t r w q = ground arith
step-queued_at s (begin now) t r w q = ground arith
step-queued_at s (finish now started none) t r w q = ground arith
step-queued_at s (finish now started (some e)) t r w q = ground arith
step-queued_at s (start now) t r w q = ground arith

-- While nothing restores a waiting database it stays out of normal collection, and its queue time
-- stays that of the failure that took it out, however often it fails or is probed meanwhile.
pub run-queued_at :
    (es : List Event) (s : Status) (t : Time)
    → any_restores es ≡ false
    → is_waiting s.state ≡ true
    → s.queued_at ≡ some t
    → (is_waiting (run s es).state ≡ true) × ((run s es).queued_at ≡ some t)
unfolding run
run-queued_at [] s t r w q = (w, q)
run-queued_at (e ∷ es) s t r w q =
    let r0 : restores e ≡ false = ground arith in
    let (w', q') = step-queued_at s e t r0 w q in run-queued_at es (step s e) t (ground arith) w' q'
