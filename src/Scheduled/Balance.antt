-- ===== src/Scheduled/Balance.antt =====
-- What scrapeDatabaseSamples of collector/collector.go counts and reports on the way.
use harry_performance_scrape.Prelude.{
  ℕ, ◌+◌, ◌≡◌, refl, Bool, true, false, ◌||◌, Option, none, some, List, [], ◌∷◌, ◌++◌, String,
  is_some, length, eqb, arith, ap, inl, inr, Bool-cases, length-append,
}
use harry_performance_scrape.Clock.{Time}
use harry_performance_scrape.Errors.{Error, join_errors}
use harry_performance_scrape.Status.{ScrapeStatusSample}
use harry_performance_scrape.Connection.{is_active}
use harry_performance_scrape.Gates.{should_collect_operational}
use harry_performance_scrape.Metrics.{Metric, is_scrape_metric}
use harry_performance_scrape.Samples.Operational
use harry_performance_scrape.Samples.Operational.{OperationalSamples}
use harry_performance_scrape.Samples.Performance
use harry_performance_scrape.Samples.Performance.{PerformanceSamples}
use harry_performance_scrape.Collection.{Progress}
use harry_performance_scrape.Profile.{Profiled, scrape_performance_samples}
use harry_performance_scrape.Scheduled.{
  Outcome, scraped, scrape_failed, Surroundings, Settings, Sent, status, take_outcome, unless_lost,
  scrape_metrics, additional_status, sent_if_any, send_performance, send_operational,
  operational_if_due, collect_batches, if_active, scrape_reachable,
}

abbrev pub sum_of : {A : Type 0} → (A → ℕ) → List A → ℕ
sum_of count [] = 0
sum_of count (x ∷ xs) = count x + sum_of count xs

sum_of-append :
    {A : Type 0} (count : A → ℕ) (xs : List A) (a : A)
    → sum_of count (xs ++ a ∷ []) ≡ sum_of count xs + count a
sum_of-append count [] a = omega arith
sum_of-append count (x ∷ xs) a = omega (arith, sum_of-append count xs a)

abbrev pub any_error : List (Option Error) → Bool
any_error [] = false
any_error (e ∷ es) = is_some e || any_error es

any_error-append :
    (xs : List (Option Error)) (e : Option Error)
    → any_error (xs ++ e ∷ []) ≡ any_error xs || is_some e
any_error-append [] e = ground arith
any_error-append (x ∷ xs) e = ground (arith, any_error-append xs e)

is_some-join_errors : (a b : Option Error) → is_some (join_errors a b) ≡ is_some a || is_some b
unfolding join_errors
is_some-join_errors none b = refl
is_some-join_errors (some a) none = refl
is_some-join_errors (some a) (some b) = refl

-- All samples that have been sent.
abbrev pub samples_sent : Sent → ℕ
samples_sent r =
    length r.metrics
    + sum_of Performance.count r.performance
    + sum_of Operational.count r.operational

-- The count and the error of the function's variables are those of what has been sent, and the first
-- status is that of connectivity.
pub record IsBalanced (first : ScrapeStatusSample) (r : Sent) : Type 0 where
  pub counted : r.total_count ≡ samples_sent r
  pub erred : is_some r.database_errors ≡ any_error r.errs
  pub opened : (rest : List ScrapeStatusSample) × (r.statuses ≡ first ∷ rest)

module _ (env : Surroundings) (collected : Time) (name : String) (first : ScrapeStatusSample) where
  sum_of-sent_if_any :
      {A : Type 0} (count : A → ℕ) (a : A) (sent : List A)
      → sum_of count (sent_if_any env collected name count a sent) ≡ sum_of count sent + count a
  sum_of-sent_if_any count a sent = elim (Bool-cases (eqb (count a) 0)) [
    | inl empty ↦ rw empty (ground arith)
    | inr some_samples ↦ rw some_samples (sum_of-append count sent a)
  ]

  opened-append :
      (xs ys : List ScrapeStatusSample)
      → (rest : List ScrapeStatusSample) × (xs ≡ first ∷ rest)
      → (rest : List ScrapeStatusSample) × (xs ++ ys ≡ first ∷ rest)
  opened-append xs ys (rest, h) = (rest ++ ys, ap (λ l. l ++ ys) h)

  take_outcome-IsBalanced :
      (m : Metric) (tick : Option Time) (o : Outcome) (r : Sent)
      → IsBalanced first r
      → IsBalanced first (take_outcome env collected name m tick o r).0
  unfolding take_outcome
  take_outcome-IsBalanced m tick (scraped samples) r h = record {
    counted = omega (arith, h.counted, length-append r.metrics samples);
    erred = ground (arith, h.erred, any_error-append r.errs none);
    opened = h.opened;
  }
  take_outcome-IsBalanced m tick (scrape_failed e) r h = record {
    counted = h.counted;
    erred = ground (
      arith,
      h.erred,
      any_error-append r.errs (some e),
      is_some-join_errors r.database_errors (some e),
    );
    opened = h.opened;
  }

  unless_lost-IsBalanced :
      (x : Sent × Bool) (later : Sent)
      → IsBalanced first x.0
      → IsBalanced first later
      → IsBalanced first (unless_lost env collected name x later)
  unless_lost-IsBalanced (r, true) later h k = h
  unless_lost-IsBalanced (r, false) later h k = k

  scrape_metrics-IsBalanced :
      (tick : Option Time) (ms : List Metric) (r : Sent)
      → IsBalanced first r
      → IsBalanced first (scrape_metrics env collected name tick ms r)
  unfolding scrape_metrics
  scrape_metrics-IsBalanced tick [] r h = h
  scrape_metrics-IsBalanced tick (m ∷ ms) r h =
      let taken = take_outcome env collected name m tick (env.outcomes m) r in
      let taken_h = take_outcome-IsBalanced m tick (env.outcomes m) r h in
      elim (Bool-cases (is_scrape_metric env.parse_duration tick m name r.scraper.metrics_cache)) [
        | inl due ↦ rw due (
            unless_lost-IsBalanced taken (scrape_metrics env collected name tick ms taken.0) taken_h
              (scrape_metrics-IsBalanced tick ms taken.0 taken_h))
        | inr early ↦ rw early (
            scrape_metrics-IsBalanced tick ms (record r { errs = r.errs ++ (none ∷ []) })
              (record {
                counted = h.counted;
                erred = ground (arith, h.erred, any_error-append r.errs none);
                opened = h.opened;
              }))
      ]

  additional_status-IsBalanced :
      (ms : List Metric) (r : Sent)
      → IsBalanced first r
      → IsBalanced first (additional_status env collected name ms r)
  additional_status-IsBalanced [] r h = h
  additional_status-IsBalanced (m ∷ ms) r h = record {
    counted = h.counted;
    erred = h.erred;
    opened = opened-append r.statuses _ h.opened;
  }

  send_performance-IsBalanced :
      (p : Profiled) (r : Sent)
      → IsBalanced first r
      → IsBalanced first (send_performance env collected name p r)
  unfolding send_performance
  send_performance-IsBalanced p r h = record {
    counted =
        omega (arith, h.counted, sum_of-sent_if_any Performance.count p.samples r.performance);
    erred = ground (
      arith,
      h.erred,
      any_error-append r.errs p.err,
      is_some-join_errors r.database_errors p.err,
    );
    opened = opened-append r.statuses _ h.opened;
  }

  send_operational-IsBalanced :
      (p : Progress) (r : Sent)
      → IsBalanced first r
      → IsBalanced first (send_operational env collected name p r)
  unfolding send_operational
  send_operational-IsBalanced p r h = record {
    counted =
        omega (arith, h.counted, sum_of-sent_if_any Operational.count p.gathered.0 r.operational);
    erred = ground (
      arith,
      h.erred,
      any_error-append r.errs p.joined,
      is_some-join_errors r.database_errors p.joined,
    );
    opened = opened-append r.statuses _ h.opened;
  }

  operational_if_due-IsBalanced :
      (c : Settings) (r : Sent)
      → IsBalanced first r
      → IsBalanced first (operational_if_due env collected name c r)
  unfolding operational_if_due
  operational_if_due-IsBalanced c r h =
      let tried =
        should_collect_operational c.operational r.scraper.last_operational_scrape name collected in
      let r' : Sent = record r {
        scraper = record (r.scraper) { last_operational_scrape = tried.0 };
      } in
      let h' : IsBalanced first r' = record {
        counted = h.counted;
        erred = h.erred;
        opened = h.opened;
      } in
      elim (Bool-cases tried.1) [
        | inl due ↦ rw due (send_operational-IsBalanced _ r' h')
        | inr early ↦ rw early h'
      ]

  if_active-IsBalanced :
      (rest : Sent → Sent)
      → ((r : Sent) → IsBalanced first r → IsBalanced first (rest r))
      → (r : Sent) → IsBalanced first r
      → IsBalanced first (if_active env collected name rest r)
  if_active-IsBalanced rest rest_h r h =
      elim (Bool-cases (is_active r.scraper.database.connection.state)) [
        | inl up ↦ rw up (rest_h r h)
        | inr down ↦ rw down h
      ]

  collect_batches-IsBalanced :
      (c : Settings) (r : Sent)
      → IsBalanced first r
      → IsBalanced first (collect_batches env collected name c r)
  unfolding collect_batches
  collect_batches-IsBalanced c r h =
      if_active-IsBalanced (operational_if_due env collected name c)
        (operational_if_due-IsBalanced c) _
        (send_performance-IsBalanced
          (scrape_performance_samples env.performance c.plans r.scraper.database collected
            r.scraper.profiler)
          r h)

  pub scrape_reachable-IsBalanced :
      (c : Settings) (ms : List Metric) (tick : Option Time) (r : Sent)
      → IsBalanced first (record r {
        statuses = r.statuses ++ (status env collected name "connectivity" 1 none ∷ []);
      })
      → IsBalanced first (scrape_reachable env collected name c ms tick r)
  unfolding scrape_reachable
  scrape_reachable-IsBalanced c ms tick r h =
      if_active-IsBalanced (collect_batches env collected name c) (collect_batches-IsBalanced c) _
        (additional_status-IsBalanced ms _ (scrape_metrics-IsBalanced tick ms _ h))
