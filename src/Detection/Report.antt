-- ===== src/Detection/Report.antt =====
-- What a pass of collector/dead_connection_detection.go reports to the sink.
use harry_performance_scrape.Prelude.{
  ◌+◌, ◌≡◌, refl, inl, inr, Bool, true, Option, none, some, List, [], ◌∷◌, ◌++◌, map, arith,
  Bool-cases, count_if, ap, ◌∙◌, sym, subst, String, if◌then◌else◌,
}
use mathlib.Core.Option.{some-injective}
use mathlib.Core.List.{append-nil, append_assoc, map-append}
use harry_performance_scrape.Clock.{Time}
use harry_performance_scrape.Errors.{Error}
use harry_performance_scrape.Status.{ScrapeStatusSample, new_scrape_status}
use harry_performance_scrape.Connection.{is_quarantined, begin_probe}
use harry_performance_scrape.Database.{Database}
use harry_performance_scrape.Config.Detection.{DeadConnectionDetectionConfig}
use harry_performance_scrape.Samples.{SampleBatch, ScrapeSummary, RuntimeSample}
use harry_performance_scrape.Runtime.{Instance}
use harry_performance_scrape.Detection.{
  Turn, Clocked, no_tally, run_dead_connection_detection, detection_batch, detection_runtime, Tally,
  counted, probe, pass,
}
use harry_performance_scrape.Detection.Pass.{pass-IsBalanced, IsBalanced}
use harry_performance_scrape.Detection.States.{
  DescribeAll, name_of, first_name, connection_state_samples-DescribeAll, databases-pass,
}

-- How many databases of a pass are quarantined when it begins.
abbrev pub waiting : Database × Turn → Bool
waiting (d, turn) = is_quarantined d.connection.state

pass-attempted :
    (s : Time) (ps : List (Database × Turn)) (t : Tally)
    → (pass s ps t).2 ≡ true
    → (pass s ps t).1.attempted ≡ t.attempted + count_if waiting ps
unfolding pass count_if probe begin_probe
pass-attempted s [] t h = omega arith
pass-attempted s ((d, turn) ∷ rest) t h =
    ground
      (arith, pass-attempted s rest (counted s turn.started turn.finished d (probe turn d).1 t))

-- The names of the databases that are quarantined when the pass begins, in their order.
pub waiting_names : List (Database × Turn) → List String
waiting_names [] = []
waiting_names (p ∷ ps) = let rest = waiting_names ps in if waiting p then p.0.name ∷ rest else rest

abbrev pub database_of : ScrapeStatusSample → String
database_of s = s.database

-- What one turn adds to them.
abbrev named : Database → Option (Option Error) → List String
named d none = []
named d (some e) = d.name ∷ []

waiting_names_step :
    (turn : Turn) (d : Database) (rest : List (Database × Turn))
    → waiting_names ((d, turn) ∷ rest) ≡ named d (probe turn d).1 ++ waiting_names rest
unfolding waiting_names probe begin_probe
waiting_names_step turn d rest = elim (Bool-cases (is_quarantined d.connection.state)) [
  | inl is ↦ rw (is, waiting_names, probe, begin_probe) refl
  | inr isnt ↦ rw (isnt, waiting_names, probe, begin_probe) refl
]

counted_names :
    (s a b : Time) (d : Database) (o : Option (Option Error)) (t : Tally)
    → map database_of (counted s a b d o t).statuses ≡ map database_of t.statuses ++ named d o
unfolding new_scrape_status
counted_names s a b d none t = sym (append-nil (map database_of t.statuses))
counted_names s a b d (some e) t = simp (map-append)

-- The statuses name the databases that were probed.
names-pass :
    (s : Time) (ps : List (Database × Turn)) (t : Tally)
    → (pass s ps t).2 ≡ true
    → map database_of (pass s ps t).1.statuses ≡ map database_of t.statuses ++ waiting_names ps
unfolding pass waiting_names
names-pass s [] t h = sym (append-nil (map database_of t.statuses))
names-pass s ((d, turn) ∷ rest) t h = elim (Bool-cases turn.cancelled) [
  | inl stop ↦ absurd (ground (arith, stop, h))
  | inr go ↦
      let o = (probe turn d).1 in
      let t' : Tally = counted s turn.started turn.finished d o t in
      let goes : (pass s rest t').2 ≡ true = ground (arith, go, h) in
      rw (go, pass)
        (names-pass s rest t' goes
          ∙ ap (λ l. l ++ waiting_names rest) (counted_names s turn.started turn.finished d o t)
          ∙ append_assoc (map database_of t.statuses) (named d o) (waiting_names rest)
          ∙ ap (λ l. map database_of t.statuses ++ l) (sym (waiting_names_step turn d rest)))
]

abbrev pub succeeded : ScrapeStatusSample → Bool
succeeded s = s.success

count_if-append :
    (xs ys : List ScrapeStatusSample)
    → count_if succeeded (xs ++ ys) ≡ count_if succeeded xs + count_if succeeded ys
unfolding count_if
count_if-append [] ys = omega arith
count_if-append (x ∷ xs) ys = ground (arith, count_if-append xs ys)

counted-recovered :
    (s a b : Time) (d : Database) (o : Option (Option Error)) (t : Tally)
    → t.recovered ≡ count_if succeeded t.statuses
    → (counted s a b d o t).recovered ≡ count_if succeeded (counted s a b d o t).statuses
unfolding new_scrape_status count_if
counted-recovered s a b d none t h = h
counted-recovered s a b d (some none) t h = omega (arith, count_if-append t.statuses)
counted-recovered s a b d (some (some e)) t h = omega (arith, count_if-append t.statuses)

-- The recoveries are the statuses that say success.
recovered-pass :
    (s : Time) (ps : List (Database × Turn)) (t : Tally)
    → t.recovered ≡ count_if succeeded t.statuses
    → (pass s ps t).1.recovered ≡ count_if succeeded (pass s ps t).1.statuses
unfolding pass
recovered-pass s [] t h = h
recovered-pass s ((d, turn) ∷ rest) t h = elim (Bool-cases turn.cancelled) [
  | inl stop ↦ rw (stop, pass) h
  | inr go ↦
      rw (go, pass)
        (recovered-pass s rest (counted s turn.started turn.finished d (probe turn d).1 t)
          (counted-recovered s turn.started turn.finished d (probe turn d).1 t h))
]

-- What a completed pass reports, from the databases before it and after it.
pub record Reports (ps : List (Database × Turn)) (ds : List Database) (b : SampleBatch)
    (r : RuntimeSample) : Type 0 where
  pub statuses : map database_of b.scrape_statuses ≡ waiting_names ps
  pub attempted : r.databases_attempted ≡ count_if waiting ps
  pub outcomes : r.databases_attempted ≡ r.databases_succeeded + r.error_count
  pub successes : r.databases_succeeded ≡ count_if succeeded b.scrape_statuses
  pub states : DescribeAll ds b.connection_states
  pub databases : map name_of ds ≡ map first_name ps

reported :
    (e : Instance) (c : DeadConnectionDetectionConfig) (at : Clocked) (ps : List (Database × Turn))
    (batch : SampleBatch) (summary : ScrapeSummary) (r : RuntimeSample)
    → (pass at.scheduled_at ps no_tally).2 ≡ true
    → detection_batch e c at
        (pass at.scheduled_at ps no_tally).0
        (pass at.scheduled_at ps no_tally).1
      ≡ (batch, summary)
    → batch.runtime ≡ some r
    → Reports ps (pass at.scheduled_at ps no_tally).0 batch r
unfolding detection_batch detection_runtime count_if
reported e c at ps batch summary r complete handed k =
    let t = (pass at.scheduled_at ps no_tally).1 in
    let ds = (pass at.scheduled_at ps no_tally).0 in
    let b : (detection_batch e c at ds t).0 ≡ batch = ap (λ p. p.0) handed in
    let run : detection_runtime e c at t ≡ r = some-injective _ _ (ap (λ x. x.runtime) b ∙ k) in
    let balanced : IsBalanced t = pass-IsBalanced at.scheduled_at ps no_tally (omega arith) in
    let all : Reports ps ds (detection_batch e c at ds t).0 (detection_runtime e c at t) = record {
      statuses = names-pass at.scheduled_at ps no_tally complete;
      attempted = pass-attempted at.scheduled_at ps no_tally complete ∙ omega arith;
      outcomes = balanced.outcomes;
      successes = recovered-pass at.scheduled_at ps no_tally refl;
      states = connection_state_samples-DescribeAll at.finished_at e.instance_name ds;
      databases = databases-pass at.scheduled_at ps no_tally;
    } in
    subst (λ x. Reports ps ds batch x) run
      (subst (λ x. Reports ps ds x (detection_runtime e c at t)) b all)

-- A pass that is not cancelled reports to the sink one status, and one attempt, for each database that
-- was quarantined when it began, by its name and in the order of the databases; each attempt is a
-- recovery, with a status that says success, or an error; and it reports the connection state of every
-- database, in order, as the pass left it.
pub run_dead_connection_detection_report :
    (e : Instance) (c : DeadConnectionDetectionConfig) (at : Clocked) (ps : List (Database × Turn))
    (batch : SampleBatch) (summary : ScrapeSummary) (r : RuntimeSample)
    → (run_dead_connection_detection e c at ps).1 ≡ some (batch, summary)
    → batch.runtime ≡ some r
    → Reports ps (run_dead_connection_detection e c at ps).0 batch r
unfolding run_dead_connection_detection
run_dead_connection_detection_report e c at ps batch summary r h k =
    let t = (pass at.scheduled_at ps no_tally).1 in
    let ds = (pass at.scheduled_at ps no_tally).0 in
    elim (Bool-cases (pass at.scheduled_at ps no_tally).2) [
      | inr cut ↦ absurd (ground (arith, cut, h))
      | inl complete ↦
          let handed : detection_batch e c at ds t ≡ (batch, summary) =
            some-injective _ _ (ground (arith, complete, h)) in
          let found : (run_dead_connection_detection e c at ps).0 ≡ ds = rw complete refl in
          subst (λ x. Reports ps x batch r) (sym found)
            (reported e c at ps batch summary r complete handed k)
    ]
