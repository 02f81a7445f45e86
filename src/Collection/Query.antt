-- ===== src/Collection/Query.antt =====
-- queryOperationalRows of collector/operational.go. What the driver answers is an argument: the error of
-- QueryContext, the rows in order, each scanned or refused by Scan, and the error that ends them.
use harry_performance_scrape.Prelude.{Option, none, some, List, [], ◌∷◌}
use harry_performance_scrape.Texts.{text}
use harry_performance_scrape.Errors.{Error, wrap_error}
use harry_performance_scrape.Database.{Database, Answer, rows, failed, query_context}

pub data Scanned (A : Type 0) : Type 0 where
  row : A → Scanned A
  refused : Error → Scanned A

pub record Rows (A : Type 0) : Type 0 where
  pub scanned : List (Scanned A)
  pub err : Option Error

-- `ctx_err` is `ctx.Err()` after a failed query: the deadline of the collection.
pub record QueryAnswer (A : Type 0) : Type 0 where
  pub answer : Answer (Rows A)
  pub ctx_err : Option Error

unfoldable pub query_failed : Option Error → Error → Error
query_failed none e = e
query_failed (some c) e = wrap_error (text "Oracle query timed out: ") c

-- `if err := scan(rows); err != nil { return err }`, and then the rest.
abbrev pub unless : {S : Type 0} → Option Error → S → S × Option Error → S × Option Error
unless none s later = later
unless (some e) s later = (s, some e)

module _ {A : Type 0} {S : Type 0} (visit : A → S → S × Option Error) where
  -- `for rows.Next()`
  unfoldable pub visit_rows : List (Scanned A) → Option Error → S → S × Option Error
  visit_rows [] err s = (s, err)
  visit_rows (refused e ∷ rest) err s = (s, some e)
  visit_rows (row a ∷ rest) err s =
      unless (visit a s).1 (visit a s).0 (visit_rows rest err (visit a s).0)

  -- By what QueryContext returned.
  unfoldable pub answered : Option Error → Answer (Rows A) → S → S × Option Error
  unfolding visit_rows query_failed
  answered ctx_err (failed e) s = (s, some (query_failed ctx_err e))
  answered ctx_err (rows r) s = visit_rows r.scanned r.err s

  unfoldable pub query_operational_rows : QueryAnswer A → Database → S → S × Option Error
  unfolding answered
  query_operational_rows q d s = answered q.ctx_err (query_context q.answer d) s
