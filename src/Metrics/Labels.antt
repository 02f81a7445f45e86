-- ===== src/Metrics/Labels.antt =====
-- The labels of the samples of collector/collector.go.
use harry_performance_scrape.Prelude.{
  ℕ, ◌≡◌, ◌≢◌, refl, ◌∙◌, ap, Bool, true, false, Option, none, some, is_some, List, [], ◌∷◌, ◌++◌,
  All, arith, inl, inr, Bool-cases, if◌then◌else◌, eqb, length, ◌==◌, or_else,
}
use harry_performance_scrape.Prelude.Dict.{Dict, lookup, insert, lookup-insert_ne}
use harry_performance_scrape.Clock.{Time}
use harry_performance_scrape.Texts.{Text, text_eq}
use harry_performance_scrape.Errors.{Error}
use harry_performance_scrape.Database.{Database}
use harry_performance_scrape.Samples.{MetricSample}
use harry_performance_scrape.Samples.Operational.{Float64}
use harry_performance_scrape.Profile.Query.{Fetch}
use harry_performance_scrape.Metrics.{Metric, get_labels, lower_keys}
use harry_performance_scrape.Metrics.Scraping.{
  Row, duplicated_labels, row_labels, parse_float, metric_samples, described_samples, parse_rows,
  Scraped, parsed, scrape_metric_samples,
}

module _ (k v : Text) where
  abbrev pub HasLabel : MetricSample → Type 0
  HasLabel s = lookup k s.labels ≡ some v

  lookup-row_labels :
      (ls : List Text) (r : Row) (constants labels : Dict Text Text)
      → duplicated_labels constants ls ≡ false
      → lookup k constants ≡ some v
      → lookup k (row_labels ls r labels) ≡ lookup k labels
  unfolding row_labels duplicated_labels
  lookup-row_labels [] r constants labels h known = refl
  lookup-row_labels (l ∷ ls) r constants labels h known =
      let others : duplicated_labels constants ls ≡ false = ground (arith, h) in
      let other : l ≢ k = λ p.
        absurd (ground (arith, h, ap (λ j. is_some (lookup j constants)) p, ap is_some known)) in
      lookup-row_labels ls r constants (insert l (or_else (lookup l r) []) labels) others known
      ∙ lookup-insert_ne l k (or_else (lookup l r) []) labels other

  All-append :
      (xs ys : List MetricSample) → All HasLabel xs → All HasLabel ys → All HasLabel (xs ++ ys)
  All-append [] ys h t = t
  All-append (x ∷ xs) ys (h, hs) t = (h, All-append xs ys hs t)

  module _ (number : Text → Option Float64) (d : Database) (m : Metric) (collected : Time) where
    metric_samples-HasLabel :
        (r : Row) (labels : Dict Text Text) (e : Text × Text)
        → lookup k labels ≡ some v
        → All HasLabel (metric_samples number d m collected r labels e)
    unfolding metric_samples
    metric_samples-HasLabel r labels (metric, help) h =
        elim (Bool-cases (parse_float number metric r).1) [
          | inl ok ↦ rw ok (h, tt)
          | inr bad ↦ rw bad tt
        ]

    described_samples-HasLabel :
        (r : Row) (labels : Dict Text Text) (es : Dict Text Text)
        → lookup k labels ≡ some v
        → All HasLabel (described_samples number d m collected r labels es)
    unfolding described_samples
    described_samples-HasLabel r labels [] h = tt
    described_samples-HasLabel r labels (e ∷ es) h =
        All-append (metric_samples number d m collected r labels e)
          (described_samples number d m collected r labels es)
          (metric_samples-HasLabel r labels e h) (described_samples-HasLabel r labels es h)

    parse_rows-HasLabel :
        (constants : Dict Text Text) (rs : List Row)
        → duplicated_labels constants (get_labels m) ≡ false
        → lookup k constants ≡ some v
        → All HasLabel (parse_rows number d m collected constants rs)
    unfolding parse_rows
    parse_rows-HasLabel constants [] h known = tt
    parse_rows-HasLabel constants (r ∷ rs) h known =
        All-append _ (parse_rows number d m collected constants rs)
          (described_samples-HasLabel (lower_keys r [])
            (row_labels (get_labels m) (lower_keys r []) constants) m.metrics_desc
            (lookup-row_labels (get_labels m) (lower_keys r []) constants constants h known
              ∙ known))
          (parse_rows-HasLabel constants rs h known)

  parsed-HasLabel :
      (ignored : Bool) (samples : List MetricSample) (err : Option Error) (next locks : ℕ)
      → All HasLabel samples
      → All HasLabel (parsed ignored samples err next locks).samples
  unfolding parsed
  parsed-HasLabel ignored samples (some e) next locks h = tt
  parsed-HasLabel false [] none next locks h = tt
  parsed-HasLabel true [] none next locks h = tt
  parsed-HasLabel false (s ∷ ss) none next locks h = h
  parsed-HasLabel true (s ∷ ss) none next locks h = h

  either :
      (b : Bool) (x y : Scraped)
      → (b ≡ true → All HasLabel x.samples)
      → (b ≡ false → All HasLabel y.samples)
      → All HasLabel (if b then x else y).samples
  either true x y h t = h refl
  either false x y h t = t refl

-- No row of a query can change a constant label: every sample of ScrapeMetricSamples has each label of the
-- database with the database's value, whatever the rows hold.
pub scrape_metric_samples-HasLabel :
    (number : Text → Option Float64) (query : Fetch Row) (d : Database) (m : Metric)
    (collected : Time) (constants : Dict Text Text) (next locks : ℕ) (k v : Text)
    → lookup k constants ≡ some v
    → All
        (HasLabel k v)
        (scrape_metric_samples number query d m collected constants next locks).samples
unfolding scrape_metric_samples
scrape_metric_samples-HasLabel number query d m collected constants next locks k v known =
    either k v (m.request == []) _ _ (λ h. tt)
      (λ h.
        either k v (eqb (length m.metrics_desc) 0) _ _ (λ h. tt)
          (λ h.
            either k v (duplicated_labels constants (get_labels m)) _ _ (λ h. tt)
              (λ distinct.
                parsed-HasLabel k v m.ignore_zero_result _ _ next _
                  (parse_rows-HasLabel k v number d m collected constants _ distinct known))))
