-- ===== src/Detection/States.antt =====
-- The connection states after a pass of collector/dead_connection_detection.go.
use harry_performance_scrape.Prelude.{
  ◌≡◌, refl, inl, inr, List, [], ◌∷◌, map, arith, Bool-cases, ap, ◌∙◌, String, or_else,
}
use harry_performance_scrape.Clock.{Time}
use harry_performance_scrape.Texts.{Text}
use harry_performance_scrape.Connection.{ConnectionStateSample, connection_state_sample, non_empty}
use harry_performance_scrape.Database.{Database}
use harry_performance_scrape.Detection.{
  Turn, connection_state_samples, Tally, counted, finished, probe, pass,
}
use harry_performance_scrape.Detection.Recovery.{begun, reconnect-Reconnects}

name-probe : (turn : Turn) (d : Database) → (probe turn d).0.name ≡ d.name
unfolding probe finished
name-probe turn d = ground (arith, (reconnect-Reconnects turn.attempt (begun turn d)).name)

-- A state says of a database what the database says of itself, an empty text as nothing.
pub record Describes (d : Database) (s : ConnectionStateSample) : Type 0 where
  pub database : s.database ≡ d.name
  pub state : s.state ≡ d.connection.state
  pub queued_at : s.queued_at ≡ d.connection.queued_at
  pub last_failure_at : s.last_failure_at ≡ d.connection.last_failure_at
  pub last_failure : or_else s.last_failure [] ≡ d.connection.last_failure
  pub last_probe_at : s.last_probe_at ≡ d.connection.last_probe_at
  pub last_probe_duration : s.last_probe_duration ≡ d.connection.last_probe_duration
  pub last_probe_error : or_else s.last_probe_error [] ≡ d.connection.last_probe_error
  pub probe_attempts : s.probe_attempts ≡ d.connection.probe_attempts
  pub recovered_at : s.recovered_at ≡ d.connection.recovered_at

abbrev pub DescribeAll : List Database → List ConnectionStateSample → Type 0
DescribeAll [] [] = Unit
DescribeAll [] (s ∷ ss) = ⊥
DescribeAll (d ∷ ds) [] = ⊥
DescribeAll (d ∷ ds) (s ∷ ss) = Describes d s × DescribeAll ds ss

non_empty_lem : (t : Text) → or_else (non_empty t) [] ≡ t
non_empty_lem [] = refl
non_empty_lem (c ∷ t) = refl

pub connection_state_samples-DescribeAll :
    (at : Time) (i : String) (ds : List Database)
    → DescribeAll ds (connection_state_samples at i ds)
unfolding connection_state_samples connection_state_sample
connection_state_samples-DescribeAll at i [] = tt
connection_state_samples-DescribeAll at i (d ∷ ds) = (
  record {
    database = refl;
    state = refl;
    queued_at = refl;
    last_failure_at = refl;
    last_failure = non_empty_lem d.connection.last_failure;
    last_probe_at = refl;
    last_probe_duration = refl;
    last_probe_error = non_empty_lem d.connection.last_probe_error;
    probe_attempts = refl;
    recovered_at = refl;
  },
  connection_state_samples-DescribeAll at i ds,
)

abbrev pub name_of : Database → String
name_of d = d.name

abbrev pub first_name : Database × Turn → String
first_name p = p.0.name

untouched : (ps : List (Database × Turn)) → map name_of (map (λ p. p.0) ps) ≡ map first_name ps
untouched [] = refl
untouched ((d, turn) ∷ rest) = ap (λ l. d.name ∷ l) (untouched rest)

-- A pass keeps the databases, and their order.
pub databases-pass :
    (s : Time) (ps : List (Database × Turn)) (t : Tally)
    → map name_of (pass s ps t).0 ≡ map first_name ps
unfolding pass
databases-pass s [] t = refl
databases-pass s ((d, turn) ∷ rest) t = elim (Bool-cases turn.cancelled) [
  | inl stop ↦ rw (stop, pass) (ap (λ l. d.name ∷ l) (untouched rest))
  | inr go ↦
      let t' : Tally = counted s turn.started turn.finished d (probe turn d).1 t in
      rw (go, pass)
        (ap (λ n. n ∷ map name_of (pass s rest t').0) (name-probe turn d)
          ∙ ap (λ l. d.name ∷ l) (databases-pass s rest t'))
]
