-- ===== src/Detection/Pass.antt =====
-- A whole pass of collector/dead_connection_detection.go over the databases.
use harry_performance_scrape.Prelude.{
  ◌+◌, ◌≡◌, inl, inr, Option, none, some, List, [], ◌∷◌, map, arith, Bool-cases, All, length,
  length-append,
}
use harry_performance_scrape.Clock.{Time}
use harry_performance_scrape.Errors.{Error}
use harry_performance_scrape.Connection.{begin_probe}
use harry_performance_scrape.Database.{Database}
use harry_performance_scrape.Database.Availability.{SaysAttempt, InService, IsSettled}
use harry_performance_scrape.Detection.{Turn, Tally, counted, probe, pass}
use harry_performance_scrape.Detection.Recovery.{probe-IsSettled}

-- One status for each probe, and each probe recovers its database or counts an error.
pub record IsBalanced (t : Tally) : Type 0 where
  pub statuses : length t.statuses ≡ t.attempted
  pub outcomes : t.attempted ≡ t.recovered + t.errors_count

counted-IsBalanced :
    (s a b : Time) (d : Database) (o : Option (Option Error)) (t : Tally)
    → IsBalanced t
    → IsBalanced (counted s a b d o t)
counted-IsBalanced s a b d none t h = h
counted-IsBalanced s a b d (some none) t h = record {
  statuses = omega (arith, length-append {0} t.statuses, h.statuses);
  outcomes = omega arith;
}
counted-IsBalanced s a b d (some (some e)) t h = record {
  statuses = omega (arith, length-append {0} t.statuses, h.statuses);
  outcomes = omega arith;
}

-- Cancelled or not, a pass ends with one status for each probe made, and with as many probes made as
-- databases recovered and errors counted.
pub pass-IsBalanced :
    (s : Time) (ps : List (Database × Turn)) (t : Tally) → IsBalanced t → IsBalanced (pass s ps t).1
unfolding pass
pass-IsBalanced s [] t h = h
pass-IsBalanced s ((d, turn) ∷ rest) t h = elim (Bool-cases turn.cancelled) [
  | inl stop ↦ rw (stop, pass) h
  | inr go ↦
      rw (go, pass)
        (pass-IsBalanced s rest (counted s turn.started turn.finished d (probe turn d).1 t)
          (counted-IsBalanced s turn.started turn.finished d (probe turn d).1 t h))
]

-- A database that is not quarantined is left alone.
probe-InService : (turn : Turn) (d : Database) → InService d → probe turn d ≡ (d, none)
unfolding probe begin_probe
probe-InService turn d h = ground arith

probe-IsSettled' :
    (turn : Turn) (d : Database)
    → SaysAttempt turn.attempt
    → IsSettled d
    → IsSettled (probe turn d).0
probe-IsSettled' turn d says (inl h) = rw (probe-InService turn d h) (inl h)
probe-IsSettled' turn d says (inr h) = elim (probe-IsSettled turn d says h) [
  | inl (_, up) ↦ inl up
  | inr (_, _, down) ↦ inr down
]

abbrev pub IsReady : Database × Turn → Type 0
IsReady (d, turn) = SaysAttempt turn.attempt × IsSettled d

unprobed : (ps : List (Database × Turn)) → All IsReady ps → All IsSettled (map (λ p. p.0) ps)
unprobed [] h = tt
unprobed ((d, turn) ∷ rest) h = (h.0.1, unprobed rest h.1)

-- Where each error that the driver may answer with has a message that is not empty, settled databases are
-- settled after a pass, wherever it is cancelled: none is left in the middle of a probe.
pub pass-IsSettled :
    (s : Time) (ps : List (Database × Turn)) (t : Tally)
    → All IsReady ps
    → All IsSettled (pass s ps t).0
unfolding pass
pass-IsSettled s [] t h = tt
pass-IsSettled s ((d, turn) ∷ rest) t h = elim (Bool-cases turn.cancelled) [
  | inl stop ↦ rw (stop, pass) (h.0.1, unprobed rest h.1)
  | inr go ↦
      rw (go, pass)
        (
          probe-IsSettled' turn d h.0.0 h.0.1,
          pass-IsSettled s rest (counted s turn.started turn.finished d (probe turn d).1 t) h.1,
        )
]
