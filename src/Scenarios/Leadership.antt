-- ===== src/Scenarios/Leadership.antt =====
-- Leader election with one lock that a session holds or nobody does.
use harry_performance_scrape.Prelude.{
  ℕ, ◌≡◌, ◌≢◌, refl, Bool, true, false, Option, none, some, List, [], ◌∷◌, eqb, if◌then◌else◌,
  arith, ◌++◌,
}
use harry_performance_scrape.Texts.{text}
use harry_performance_scrape.Errors.{new_error}
use harry_performance_scrape.Election.{
  Session, Locks, Round, no_connection, error_after, answered, acquire, monitor, watch, leading,
  acquire_round,
}
use harry_performance_scrape.Election.Exclusion.{
  Event, round, lost, run, begun, Leads, run-Leads_alone, step,
}
use harry_performance_scrape.Election.Leadership.{Settles, acquire-Settles}
use harry_performance_scrape.Election.Watch.{
  Happening, asked, tried, closed, ticks_of, locks_after, monitor-holds,
}

abbrev held_by : Session → Option Session → Bool
held_by c none = false
held_by c (some d) = eqb c d

abbrev try_one : Session → Option Session → Option Session × Bool
try_one c none = (some c, true)
try_one c (some d) = if eqb c d then (some d, true) else (some d, false)

abbrev end_one : Session → Option Session → Option Session
end_one c none = none
end_one c (some d) = if eqb c d then none else some d

given_one :
    (c : Session) (s : Option Session) → (try_one c s).1 ≡ true → held_by c (try_one c s).0 ≡ true
given_one c none h = ground arith
given_one c (some d) h = ground arith

granted_one :
    (c d : Session) (s : Option Session)
    → (try_one c s).1 ≡ true
    → held_by d (try_one c s).0 ≡ true
    → d ≡ c
granted_one c d none h k = ground arith
granted_one c d (some e) h k = ground arith

refused_one :
    (c d : Session) (s : Option Session)
    → (try_one c s).1 ≡ false
    → held_by d (try_one c s).0 ≡ true
    → held_by d s ≡ true
refused_one c d none h k = absurd (ground arith)
refused_one c d (some e) h k = ground arith

kept_one :
    (c d : Session) (s : Option Session) → held_by d s ≡ true → held_by d (try_one c s).0 ≡ true
kept_one c d none h = absurd (ground arith)
kept_one c d (some e) h = ground arith

kept_other_one :
    (c d : Session) (s : Option Session)
    → d ≢ c
    → held_by d s ≡ true
    → held_by d (end_one c s) ≡ true
kept_other_one c d none n h = absurd (ground arith)
kept_other_one c d (some e) n h = ground arith

ended_one : (c : Session) (s : Option Session) → held_by c (end_one c s) ≡ false
ended_one c none = refl
ended_one c (some d) = ground arith

ended_other_one :
    (c d : Session) (s : Option Session) → held_by d (end_one c s) ≡ true → held_by d s ≡ true
ended_other_one c d none h = absurd (ground arith)
ended_other_one c d (some e) h = ground arith

abbrev one_lock : Locks
one_lock = record {
  State = Option Session;
  holds = held_by;
  try_lock = try_one;
  end_session = end_one;
  given = given_one;
  granted = granted_one;
  refused = refused_one;
  kept = kept_one;
  ended = ended_one;
  kept_other = kept_other_one;
  ended_other = ended_other_one;
}

-- Instance 0 leads, loses its session, and instance 1 takes over.
abbrev takeover : List (Event one_lock)
takeover =
    round 0 answered ∷ round 1 answered ∷ lost 0 ∷ round 1 error_after ∷ round 1 answered ∷ []

second-Leads : Leads one_lock (run one_lock (begun one_lock none) takeover) 1
second-Leads =
    (3, unfold run step begun acquire_round in refl, unfold run step begun acquire_round in refl)

abbrev one : ℕ
one = 1

run-Leads_alone_example : one ≡ one
run-Leads_alone_example =
    run-Leads_alone one_lock none (λ c. refl) takeover one one second-Leads second-Leads

abbrev rounds : List (Round × Bool)
rounds = (no_connection, false) ∷ (error_after, false) ∷ (answered, false) ∷ []

acquire-Settles_example : Settles one_lock none (acquire one_lock rounds 5 none)
acquire-Settles_example = acquire-Settles one_lock rounds 5 none

third_round_leads : (acquire one_lock rounds 5 none).1 ≡ leading 7
unfolding acquire acquire_round
third_round_leads = refl

-- Another session tries the lock between two turns of the ticker.
abbrev quiet : List Happening
quiet = asked true ∷ tried 9 ∷ asked true ∷ []

still_runs : monitor (some 4) (ticks_of false (quiet ++ asked true ∷ [])) ≡ none
unfolding monitor watch ticks_of
still_runs = refl

monitor-holds_example : held_by 4 (locks_after one_lock 4 quiet (some 4)) ≡ true
monitor-holds_example = monitor-holds one_lock 4 quiet true (some 4) refl still_runs

-- After Close, the next turn of the ticker ends Monitor, whatever the server would answer.
closed_ends :
    monitor (some 4) (ticks_of false (asked true ∷ closed ∷ asked true ∷ []))
    ≡ some (new_error (text "PostgreSQL HA leadership connection is closed"))
unfolding monitor watch ticks_of
closed_ends = refl
