-- ===== src/Collection/Totals.antt =====
-- What ScrapeOperationalSamples of collector/operational.go counts.
use harry_performance_scrape.Prelude.{
  ℕ, ◌+◌, ◌≤◌, ◌≡◌, Option, none, some, List, [], ◌∷◌, String, string_eq, arith, length,
  length-append,
}
use harry_performance_scrape.Clock.{Time}
use harry_performance_scrape.Errors.{Error}
use harry_performance_scrape.Counters.{Counters, Delta, operational_delta}
use harry_performance_scrape.Database.{Database, Answer, rows, failed, query_context}
use harry_performance_scrape.Collection.Rows.{OperationalCounterRow}
use harry_performance_scrape.Collection.Query.{
  QueryAnswer, Scanned, row, refused, unless, visit_rows, answered, Rows, query_operational_rows,
}
use harry_performance_scrape.Collection.Scrapers.{
  append_sample, scrape_rows, append_counter, counter_key_of, scrape_operational_counter_rows,
}

-- What every call of `scan` keeps, the query keeps.
module _ {A S : Type 0} (visit : A → S → S × Option Error) (P : S → Type 0)
    (keep : (a : A) (s : S) → P s → P (visit a s).0) where
  unless-keep :
      (o : Option Error) (s : S) (later : S × Option Error)
      → P s
      → P later.0
      → P (unless o s later).0
  unless-keep none s later h k = k
  unless-keep (some e) s later h k = h

  visit_rows-keep :
      (xs : List (Scanned A)) (err : Option Error) (s : S) → P s → P (visit_rows visit xs err s).0
  unfolding visit_rows
  visit_rows-keep [] err s h = h
  visit_rows-keep (refused e ∷ xs) err s h = h
  visit_rows-keep (row a ∷ xs) err s h =
      unless-keep (visit a s).1 (visit a s).0 (visit_rows visit xs err (visit a s).0) (keep a s h)
        (visit_rows-keep xs err (visit a s).0 (keep a s h))

  answered-keep :
      (ctx : Option Error) (o : Answer (Rows A)) (s : S) → P s → P (answered visit ctx o s).0
  unfolding answered
  answered-keep ctx (failed e) s h = h
  answered-keep ctx (rows r) s h = visit_rows-keep r.scanned r.err s h

  pub query_operational_rows-keep :
      (q : QueryAnswer A) (d : Database) (s : S) → P s → P (query_operational_rows visit q d s).0
  unfolding query_operational_rows
  query_operational_rows-keep q d s h = answered-keep q.ctx_err (query_context q.answer d) s h

module _ {A B : Type 0} (sample_of : A → B) (q : QueryAnswer A) (d : Database) (out : List B) where
  -- The number that is reported is the number of new samples.
  pub length-scrape_rows :
      length (scrape_rows sample_of q d out).0 ≡ length out + (scrape_rows sample_of q d out).1
  unfolding scrape_rows
  length-scrape_rows =
      let grows : length out ≤ length (query_operational_rows (append_sample sample_of) q d out).0 =
        query_operational_rows-keep (append_sample sample_of) (λ l. length out ≤ length l)
          (λ a l h. omega (arith, length-append l (sample_of a ∷ []))) q d out (omega arith) in
      omega arith

module _ {B : Type 0} (kind : String) (sample_of : OperationalCounterRow → Delta → B)
    (q : QueryAnswer OperationalCounterRow) (d : Database) (collected : Time) where
  appends :
      (n : ℕ) (a : OperationalCounterRow) (r : List B × Counters × ℕ)
      → length r.0 ≡ n + r.2
      → length (append_counter kind sample_of d collected a r).0.0
        ≡ n + (append_counter kind sample_of d collected a r).0.2
  unfolding append_counter
  appends n a (l, counters, m) h = omega (
    arith,
    length-append l (
        sample_of a
          (operational_delta (counter_key_of kind sample_of d a) collected a.value counters).1
        ∷ []),
  )

  pub length-scrape_operational_counter_rows :
      (out : List B) (counters : Counters)
      → let r = (scrape_operational_counter_rows kind sample_of q d collected (out, counters)).0 in
        length r.0 ≡ length out + r.2
  unfolding scrape_operational_counter_rows
  length-scrape_operational_counter_rows out counters =
      query_operational_rows-keep (append_counter kind sample_of d collected)
        (λ r. length r.0 ≡ length out + r.2) (appends (length out)) q d (out, counters, 0)
        (omega arith)
