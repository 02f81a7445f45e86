-- ===== src/Scheduled/Capacity.antt =====
-- How much scrapeDatabaseSamples of collector/collector.go sends to its channels.
use harry_performance_scrape.Prelude.{
  ℕ, suc, ◌+◌, ◌≤◌, Bool, true, false, not, Option, none, some, List, [], ◌∷◌, ◌++◌, String,
  if◌then◌else◌, length, length-append, eqb, arith, inl, inr, Bool-cases, or_else,
}
use harry_performance_scrape.Clock.{Time}
use harry_performance_scrape.Errors.{Error}
use harry_performance_scrape.Connection.{is_active}
use harry_performance_scrape.Database.{ping}
use harry_performance_scrape.Gates.{should_collect_operational}
use harry_performance_scrape.Metrics.{Metric, is_scrape_metric}
use harry_performance_scrape.Collection.{Progress}
use harry_performance_scrape.Profile.{Profiled, scrape_performance_samples}
use harry_performance_scrape.Scheduled.{
  Outcome, scraped, scrape_failed, Surroundings, Settings, Scraper, Sent, take_outcome, unless_lost,
  scrape_metrics, additional_status, sent_if_any, send_performance, send_operational,
  operational_if_due, collect_batches, if_active, scrape_reachable, finish, after_ping,
  scrape_database_samples, nothing_sent,
}

-- At most so many errors, performance batches and operational batches have been sent.
pub record SendsAtMost (errors performance operational : ℕ) (r : Sent) : Type 0 where
  pub errors_sent : length r.errs ≤ errors
  pub performance_sent : length r.performance ≤ performance
  pub operational_sent : length r.operational ≤ operational

module _ (env : Surroundings) (collected : Time) (name : String) where
  length-sent_if_any-le :
      {A : Type 0} (count : A → ℕ) (a : A) (sent : List A)
      → length (sent_if_any env collected name count a sent) ≤ length sent + 1
  length-sent_if_any-le count a sent = elim (Bool-cases (eqb (count a) 0)) [
    | inl empty ↦ rw empty (omega arith)
    | inr some_samples ↦ rw some_samples (omega (arith, length-append sent (a ∷ [])))
  ]

  module _ (e p o : ℕ) where
    take_outcome-SendsAtMost :
        (m : Metric) (tick : Option Time) (outcome : Outcome) (r : Sent)
        → SendsAtMost e p o r
        → SendsAtMost (e + 1) p o (take_outcome env collected name m tick outcome r).0
    unfolding take_outcome
    take_outcome-SendsAtMost m tick (scraped samples) r h = record {
      errors_sent = omega (arith, h.errors_sent, length-append r.errs (none ∷ []));
      performance_sent = h.performance_sent;
      operational_sent = h.operational_sent;
    }
    take_outcome-SendsAtMost m tick (scrape_failed err) r h = record {
      errors_sent = omega (arith, h.errors_sent, length-append r.errs (some err ∷ []));
      performance_sent = h.performance_sent;
      operational_sent = h.operational_sent;
    }

    additional_status-SendsAtMost :
        (ms : List Metric) (r : Sent)
        → SendsAtMost e p o r
        → SendsAtMost e p o (additional_status env collected name ms r)
    additional_status-SendsAtMost [] r h = h
    additional_status-SendsAtMost (m ∷ ms) r h = record {
      errors_sent = h.errors_sent;
      performance_sent = h.performance_sent;
      operational_sent = h.operational_sent;
    }

    send_performance-SendsAtMost :
        (q : Profiled) (r : Sent)
        → SendsAtMost e p o r
        → SendsAtMost (e + 1) (p + 1) o (send_performance env collected name q r)
    unfolding send_performance
    send_performance-SendsAtMost q r h = record {
      errors_sent = omega (arith, h.errors_sent, length-append r.errs (q.err ∷ []));
      performance_sent =
          omega (arith, h.performance_sent, length-sent_if_any-le _ q.samples r.performance);
      operational_sent = h.operational_sent;
    }

    send_operational-SendsAtMost :
        (q : Progress) (r : Sent)
        → SendsAtMost e p o r
        → SendsAtMost (e + 1) p (o + 1) (send_operational env collected name q r)
    unfolding send_operational
    send_operational-SendsAtMost q r h = record {
      errors_sent = omega (arith, h.errors_sent, length-append r.errs (q.joined ∷ []));
      performance_sent = h.performance_sent;
      operational_sent =
          omega (arith, h.operational_sent, length-sent_if_any-le _ q.gathered.0 r.operational);
    }

  weaker :
      (e p o e' p' o' : ℕ) (r : Sent)
      → SendsAtMost e p o r
      → e ≤ e'
      → p ≤ p'
      → o ≤ o'
      → SendsAtMost e' p' o' r
  weaker e p o e' p' o' r h he hp ho = record {
    errors_sent = omega (arith, h.errors_sent, he);
    performance_sent = omega (arith, h.performance_sent, hp);
    operational_sent = omega (arith, h.operational_sent, ho);
  }

  operational_if_due-SendsAtMost :
      (c : Settings) (e p o : ℕ) (r : Sent)
      → SendsAtMost e p o r
      → SendsAtMost (e + 1) p (o + 1) (operational_if_due env collected name c r)
  unfolding operational_if_due
  operational_if_due-SendsAtMost c e p o r h =
      let tried =
        should_collect_operational c.operational r.scraper.last_operational_scrape name collected in
      let r' : Sent = record r {
        scraper = record (r.scraper) { last_operational_scrape = tried.0 };
      } in
      let h' : SendsAtMost e p o r' = record {
        errors_sent = h.errors_sent;
        performance_sent = h.performance_sent;
        operational_sent = h.operational_sent;
      } in
      elim (Bool-cases tried.1) [
        | inl due ↦ rw due (send_operational-SendsAtMost e p o _ r' h')
        | inr early ↦
            rw early
              (weaker e p o (e + 1) p (o + 1) r' h' (omega arith) (omega arith) (omega arith))
      ]

  if_active-SendsAtMost :
      (e p o : ℕ) (rest : Sent → Sent) (r : Sent)
      → SendsAtMost e p o r
      → SendsAtMost e p o (rest r)
      → SendsAtMost e p o (if_active env collected name rest r)
  if_active-SendsAtMost e p o rest r h k =
      elim (Bool-cases (is_active r.scraper.database.connection.state)) [
        | inl up ↦ rw up k
        | inr down ↦ rw down h
      ]

  collect_batches-SendsAtMost :
      (c : Settings) (e p o : ℕ) (r : Sent)
      → SendsAtMost e p o r
      → SendsAtMost (e + 2) (p + 1) (o + 1) (collect_batches env collected name c r)
  unfolding collect_batches
  collect_batches-SendsAtMost c e p o r h =
      let q : Profiled =
        scrape_performance_samples env.performance c.plans r.scraper.database collected
          r.scraper.profiler in
      let sent = send_performance-SendsAtMost e p o q r h in
      if_active-SendsAtMost (e + 2) (p + 1) (o + 1) (operational_if_due env collected name c) _
        (weaker (e + 1) (p + 1) o (e + 2) (p + 1) (o + 1) _ sent (omega arith) (omega arith)
          (omega arith))
        (weaker (e + 1 + 1) (p + 1) (o + 1) (e + 2) (p + 1) (o + 1) _
          (operational_if_due-SendsAtMost c (e + 1) (p + 1) o _ sent) (omega arith) (omega arith)
          (omega arith))

  either-SendsAtMost :
      (b : Bool) (e p o : ℕ) (x y : Sent)
      → SendsAtMost e p o x
      → SendsAtMost e p o y
      → SendsAtMost e p o (if b then x else y)
  either-SendsAtMost true e p o x y h k = h
  either-SendsAtMost false e p o x y h k = k

  unless_lost-SendsAtMost :
      (e p o : ℕ) (x : Sent × Bool) (later : Sent)
      → SendsAtMost e p o x.0
      → SendsAtMost e p o later
      → SendsAtMost e p o (unless_lost env collected name x later)
  unless_lost-SendsAtMost e p o (r, true) later h k = h
  unless_lost-SendsAtMost e p o (r, false) later h k = k

  scrape_metrics-SendsAtMost :
      (tick : Option Time) (ms : List Metric) (e p o : ℕ) (r : Sent)
      → SendsAtMost e p o r
      → SendsAtMost (e + length ms) p o (scrape_metrics env collected name tick ms r)
  unfolding scrape_metrics
  scrape_metrics-SendsAtMost tick [] e p o r h =
      weaker e p o (e + 0) p o r h (omega arith) (omega arith) (omega arith)
  scrape_metrics-SendsAtMost tick (m ∷ ms) e p o r h =
      let taken : Sent × Bool = take_outcome env collected name m tick (env.outcomes m) r in
      let taken_h = take_outcome-SendsAtMost e p o m tick (env.outcomes m) r h in
      let skipped : Sent = record r { errs = r.errs ++ (none ∷ []) } in
      let skipped_h : SendsAtMost (e + 1) p o skipped = record {
        errors_sent = omega (arith, h.errors_sent, length-append r.errs (none ∷ []));
        performance_sent = h.performance_sent;
        operational_sent = h.operational_sent;
      } in
      either-SendsAtMost
        (not (is_scrape_metric env.parse_duration tick m name r.scraper.metrics_cache))
        (e + suc (length ms)) p o _ _
        (weaker (e + 1 + length ms) p o (e + suc (length ms)) p o _
          (scrape_metrics-SendsAtMost tick ms (e + 1) p o skipped skipped_h) (omega arith)
          (omega arith) (omega arith))
        (unless_lost-SendsAtMost (e + suc (length ms)) p o taken _
          (weaker (e + 1) p o (e + suc (length ms)) p o taken.0 taken_h (omega arith) (omega arith)
            (omega arith))
          (weaker (e + 1 + length ms) p o (e + suc (length ms)) p o _
            (scrape_metrics-SendsAtMost tick ms (e + 1) p o taken.0 taken_h) (omega arith)
            (omega arith) (omega arith)))

  scrape_reachable-SendsAtMost :
      (c : Settings) (ms : List Metric) (tick : Option Time) (s : Scraper)
      → SendsAtMost
          (length ms + 2)
          1
          1
          (scrape_reachable env collected name c ms tick (nothing_sent s))
  unfolding scrape_reachable
  scrape_reachable-SendsAtMost c ms tick s =
      let metrics_h = additional_status-SendsAtMost (0 + length ms) 0 0 ms _ (
        scrape_metrics-SendsAtMost tick ms 0 0 0 _ (record {
          errors_sent = omega arith;
          performance_sent = omega arith;
          operational_sent = omega arith;
        })) in
      if_active-SendsAtMost (length ms + 2) 1 1 (collect_batches env collected name c) _
        (weaker (0 + length ms) 0 0 (length ms + 2) 1 1 _ metrics_h (omega arith) (omega arith)
          (omega arith))
        (weaker (0 + length ms + 2) (0 + 1) (0 + 1) (length ms + 2) 1 1 _
          (collect_batches-SendsAtMost c (0 + length ms) 0 0 _ metrics_h) (omega arith)
          (omega arith) (omega arith))

  after_ping-SendsAtMost :
      (c : Settings) (ms : List Metric) (tick : Option Time) (answer : Option Error) (s : Scraper)
      → SendsAtMost
          (length ms + 2)
          1
          1
          (after_ping env collected name c ms tick answer (nothing_sent s))
  unfolding after_ping finish
  after_ping-SendsAtMost c ms tick (some err) s = record {
    errors_sent = omega arith;
    performance_sent = omega arith;
    operational_sent = omega arith;
  }
  after_ping-SendsAtMost c ms tick none s =
      let h = scrape_reachable-SendsAtMost c ms tick s in
      record {
        errors_sent = h.errors_sent;
        performance_sent = h.performance_sent;
        operational_sent = h.operational_sent;
      }

-- A scheduled scrape of a database fits into its share of the channels that scrapeSamples makes for the
-- errors, the performance samples and the operational samples: it sends at most two errors more than there
-- are metrics, and at most one batch of performance and one of operational samples.
pub scrape_database_samples-SendsAtMost :
    (env : Surroundings) (now : Time) (c : Settings) (metrics : List Metric) (tick : Option Time)
    (s : Scraper)
    → SendsAtMost (length metrics + 2) 1 1 (scrape_database_samples env now c metrics tick s)
unfolding scrape_database_samples
scrape_database_samples-SendsAtMost env now c metrics tick s =
    let collected : Time = or_else tick now in
    let answered = ping env.ping_answer env.at s.database in
    let name : String = s.database.name in
    either-SendsAtMost env collected name (not s.database.startup_ready) (length metrics + 2) 1 1 _
      _
      (record {
        errors_sent = omega arith;
        performance_sent = omega arith;
        operational_sent = omega arith;
      })
      (either-SendsAtMost env collected name (not (is_active s.database.connection.state))
        (length metrics + 2) 1 1 _ _
        (record {
          errors_sent = omega arith;
          performance_sent = omega arith;
          operational_sent = omega arith;
        })
        (after_ping-SendsAtMost env collected name c metrics tick answered.1
          (record s { database = answered.0 })))
