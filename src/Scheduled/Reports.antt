-- ===== src/Scheduled/Reports.antt =====
-- The statuses that scrapeDatabaseSamples of collector/collector.go sends.
use harry_performance_scrape.Prelude.{
  ◌≡◌, refl, Bool, true, false, not, ◌&&◌, Option, none, some, List, [], ◌∷◌, ◌++◌, String, ap, sym,
  or_else, is_some, if◌then◌else◌, ◌||◌,
}
use harry_performance_scrape.Clock.{Time}
use harry_performance_scrape.Errors.{Error}
use harry_performance_scrape.Status.{ScrapeStatusSample, new_scrape_status}
use harry_performance_scrape.Connection.{is_active}
use harry_performance_scrape.Database.{Database, ping}
use harry_performance_scrape.Metrics.{Metric}
use harry_performance_scrape.Scheduled.{
  Surroundings, Settings, Scraper, Sent, nothing_sent, status, finish, after_ping,
  scrape_database_samples, not_ready, not_active, failure_statuses,
}
use harry_performance_scrape.Scheduled.Balance.{
  IsBalanced, samples_sent, any_error, scrape_reachable-IsBalanced,
}

-- The first status is that of connectivity; the last counts what has been sent, and is a success where
-- the database is ready and no error has been sent.
pub record Reports (ready : Bool) (r : Sent) : Type 0 where
  pub first : ScrapeStatusSample
  pub between : List ScrapeStatusSample
  pub last : ScrapeStatusSample
  pub all_statuses : r.statuses ≡ first ∷ between ++ last ∷ []
  pub first_collector : first.collector ≡ "connectivity"
  pub last_collector : last.collector ≡ "scheduled"
  pub last_count : last.sample_count ≡ samples_sent r
  pub last_success : last.success ≡ ready && not (any_error r.errs)

finish-Reports :
    (env : Surroundings) (collected : Time) (name : String) (first : ScrapeStatusSample) (r : Sent)
    → IsBalanced first r
    → first.collector ≡ "connectivity"
    → Reports true (finish env collected name r)
unfolding finish new_scrape_status
finish-Reports env collected name first r h named = record {
  first = first;
  between = h.opened.0;
  last = status env collected name "scheduled" r.total_count r.database_errors;
  all_statuses =
      ap (λ l. l ++ (status env collected name "scheduled" r.total_count r.database_errors ∷ []))
        h.opened.1;
  first_collector = named;
  last_collector = refl;
  last_count = h.counted;
  last_success = ap not h.erred;
}

after_ping-Reports :
    (env : Surroundings) (collected : Time) (name : String) (c : Settings) (ms : List Metric)
    (tick : Option Time) (answer : Option Error) (s : Scraper)
    → Reports true (after_ping env collected name c ms tick answer (nothing_sent s))
unfolding after_ping new_scrape_status
after_ping-Reports env collected name c ms tick (some e) s = record {
  first = status env collected name "connectivity" 0 (some e);
  between = [];
  last = status env collected name "scheduled" 0 (some e);
  all_statuses = refl;
  first_collector = refl;
  last_collector = refl;
  last_count = refl;
  last_success = refl;
}
after_ping-Reports env collected name c ms tick none s =
    let up : ScrapeStatusSample = status env collected name "connectivity" 1 none in
    finish-Reports env collected name up _
      (scrape_reachable-IsBalanced env collected name up c ms tick (nothing_sent s)
        (record { counted = refl; erred = refl; opened = ([], refl) }))
      refl

-- Nothing is sent but the two failures.
refused-Reports :
    (env : Surroundings) (collected : Time) (name : String) (ready : Bool) (e : Error)
    (sent : Option Error) (s : Scraper)
    → (ready && not (is_some sent || false)) ≡ false
    → Reports ready (record (nothing_sent s) {
      statuses = failure_statuses env collected name e;
      errs = sent ∷ [];
    })
unfolding new_scrape_status
refused-Reports env collected name ready e sent s h = record {
  first = status env collected name "connectivity" 0 (some e);
  between = [];
  last = status env collected name "scheduled" 0 (some e);
  all_statuses = refl;
  first_collector = refl;
  last_collector = refl;
  last_count = refl;
  last_success = sym h;
}

unless_ready-Reports :
    (ready : Bool) (refused late : Sent)
    → Reports false refused
    → Reports true late
    → Reports ready (if not ready then refused else late)
unless_ready-Reports true refused late h k = k
unless_ready-Reports false refused late h k = h

unless_up-Reports :
    (up : Bool) (refused late : Sent)
    → Reports true refused
    → Reports true late
    → Reports true (if not up then refused else late)
unless_up-Reports true refused late h k = k
unless_up-Reports false refused late h k = h

-- Whatever happens in a scheduled scrape of a database, its statuses begin with the one of connectivity
-- and end with the one of the scrape, which counts the samples that have been sent and is a success
-- exactly when the startup is done and no error has been sent.
pub scrape_database_samples-Reports :
    (env : Surroundings) (now : Time) (c : Settings) (metrics : List Metric) (tick : Option Time)
    (s : Scraper)
    → Reports s.database.startup_ready (scrape_database_samples env now c metrics tick s)
unfolding scrape_database_samples
scrape_database_samples-Reports env now c metrics tick s =
    let d : Database = s.database in
    let collected : Time = or_else tick now in
    let answered : Database × Option Error = ping env.ping_answer env.at d in
    unless_ready-Reports d.startup_ready _ _
      (refused-Reports env collected d.name false not_ready none s refl)
      (unless_up-Reports (is_active d.connection.state) _ _
        (refused-Reports env collected d.name true (not_active d) (some (not_active d)) s refl)
        (after_ping-Reports env collected d.name c metrics tick answered.1
          (record s { database = answered.0 })))
