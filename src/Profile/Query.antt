-- ===== src/Profile/Query.antt =====
-- How the queries of collector/performance.go read their rows, with the read lock that QueryContext
-- leaves held while rows are open: `locks` counts the read locks on the database. The context's
-- deadline is looked at once, when QueryContext has returned.
use harry_performance_scrape.Prelude.{
  ℕ, suc, Bool, true, false, Option, some, List, [], ◌∷◌, ◌++◌, if◌then◌else◌,
}
use harry_performance_scrape.Texts.{text}
use harry_performance_scrape.Errors.{Error, new_error}
use harry_performance_scrape.Database.{Database, Answer, rows, failed, query_context}
use harry_performance_scrape.Collection.Query.{Scanned, row, refused, Rows}

-- `deadline` is whether `ctx.Err() == context.DeadlineExceeded`.
pub record Fetch (A : Type 0) : Type 0 where
  pub answer : Answer (Rows A)
  pub deadline : Bool

pub record Fetched (B : Type 0) : Type 0 where
  pub samples : List B
  pub err : Option Error
  pub locks : ℕ

unfoldable pub query_timed_out : Error
query_timed_out = new_error (text "Oracle query timed out")

module _ {A B : Type 0} (sample_of : A → B) where
  -- `for rows.Next()`: a row that cannot be scanned drops all samples, an error that ends the rows none.
  unfoldable pub scan_rows : List (Scanned A) → Option Error → List B → List B × Option Error
  scan_rows [] err samples = (samples, err)
  scan_rows (refused e ∷ rest) err samples = ([], some e)
  scan_rows (row a ∷ rest) err samples = scan_rows rest err (samples ++ (sample_of a ∷ []))

  -- The rows are read, and the deferred `unlock` gives the lock back.
  unfoldable pub reads : Rows A → ℕ → Fetched B
  unfolding scan_rows
  reads r locks =
      let (samples, err) = scan_rows r.scanned r.err [] in
      record { samples = samples; err = err; locks = locks }

  -- After QueryContext, where the deadline is looked at first: a query that was answered although its
  -- deadline has passed returns without `unlock`.
  unfoldable pub fetched : Bool → Answer (Rows A) → ℕ → Fetched B
  unfolding reads query_timed_out
  fetched true (failed e) locks = record { samples = []; err = some query_timed_out; locks = locks }
  fetched false (failed e) locks = record { samples = []; err = some e; locks = locks }
  fetched true (rows r) locks = record {
    samples = [];
    err = some query_timed_out;
    locks = suc locks;
  }
  fetched false (rows r) locks = reads r locks

  -- scrapeSQLSamples, scrapeSessionSamples, scrapeBlockingSessionSamples and the query of scrapeSQLPlans.
  unfoldable pub fetch : Fetch A → Database → ℕ → Fetched B
  unfolding fetched
  fetch f d locks = fetched f.deadline (query_context f.answer d) locks

  -- scrapeSQLDetails looks at the deadline only where the query has failed.
  unfoldable pub fetched_details : Bool → Answer (Rows A) → ℕ → Fetched B
  unfolding reads query_timed_out
  fetched_details deadline (failed e) locks = record {
    samples = [];
    err = some (if deadline then query_timed_out else e);
    locks = locks;
  }
  fetched_details deadline (rows r) locks = reads r locks
