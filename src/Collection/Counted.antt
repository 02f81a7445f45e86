-- ===== src/Collection/Counted.antt =====
-- The sum of what the statuses of ScrapeOperationalSamples of collector/operational.go count.
use harry_performance_scrape.Prelude.{
  ℕ, ◌+◌, ◌≡◌, refl, Bool, ◌||◌, none, List, [], ◌∷◌, ◌++◌, String, string_eq, ◌==◌, arith, ◌∙◌,
  if◌then◌else◌, All,
}
use harry_performance_scrape.Clock.{Time, Duration}
use harry_performance_scrape.Status.{ScrapeStatusSample, new_scrape_status}
use harry_performance_scrape.Counters.{Counters}
use harry_performance_scrape.Database.{Database}
use harry_performance_scrape.Samples.Operational.{count, empty}
use harry_performance_scrape.Collection.{
  Gathered, OperationalAnswers, Collection, collections, Progress, collect_one, collect_all,
  scrape_operational_samples,
}
use harry_performance_scrape.Collection.DataGuard.{Formats}
use harry_performance_scrape.Collection.Reports.{collector_of}
use harry_performance_scrape.Collection.Growth.{
  scrape_database_status-Appends, scrape_instances-Appends, scrape_resource_limits-Appends,
  scrape_tablespaces-Appends, scrape_asm_diskgroups-Appends, scrape_system_metrics-Appends,
  count-scrape_system_counters, count-scrape_wait_classes, scrape_database_identity-Keeps,
  scrape_instance_memory-Keeps, scrape_tablespace_allocation-Keeps, scrape_data_guard-Appends,
}

-- The three queries that complete samples of an earlier one.
abbrev pub is_completing : String → Bool
is_completing c =
    c == "operational.database_identity"
    || c == "operational.instance_memory"
    || c == "operational.tablespace_allocation"

-- The samples that a list of statuses reports as new.
abbrev pub appended : List ScrapeStatusSample → ℕ
appended [] = 0
appended (s ∷ ss) = (if is_completing s.collector then 0 else s.sample_count) + appended ss

appended-append :
    (xs : List ScrapeStatusSample) (s : ScrapeStatusSample)
    → appended (xs ++ s ∷ []) ≡ appended xs + appended (s ∷ [])
appended-append [] s = omega arith
appended-append (x ∷ xs) s = omega (arith, appended-append xs s)

-- A query's count is that of the samples that it adds.
abbrev CountsItsOwn : Collection → Type 0
CountsItsOwn c =
    (g : Gathered)
    → count (c.collect g).0.0
      ≡ count g.0 + (if is_completing (collector_of c) then 0 else (c.collect g).1)

plus_zero : (n : ℕ) → n ≡ n + 0
plus_zero n = omega arith

collections-CountTheirOwn :
    (f : Formats) (a : OperationalAnswers) (d : Database) (collected : Time)
    → All CountsItsOwn (collections f a d collected)
unfolding collections
collections-CountTheirOwn f a d collected = (
  λ g. scrape_database_status-Appends d collected a.status g.0,
  (
    λ g. scrape_database_identity-Keeps a.identity d g.0 ∙ plus_zero (count g.0),
    (
      λ g. scrape_instances-Appends d collected a.instances g.0,
      (
        λ g. scrape_instance_memory-Keeps a.memory d g.0 ∙ plus_zero (count g.0),
        (
          λ g. scrape_resource_limits-Appends d collected a.limits g.0,
          (
            λ g. scrape_tablespaces-Appends d collected a.tablespaces g.0,
            (
              λ g. scrape_tablespace_allocation-Keeps a.allocation d g.0 ∙ plus_zero (count g.0),
              (
                λ g. scrape_asm_diskgroups-Appends d collected a.diskgroups g.0,
                (
                  λ g. count-scrape_system_counters d collected a.system g,
                  (
                    λ g. count-scrape_system_counters d collected a.cpu_io g,
                    (
                      λ g. count-scrape_wait_classes d collected a.waits g,
                      (
                        λ g. scrape_system_metrics-Appends d collected a.metrics g.0,
                        (λ g. scrape_data_guard-Appends d collected f a.data_guard g.0, tt),
                      ),
                    ),
                  ),
                ),
              ),
            ),
          ),
        ),
      ),
    ),
  ),
)

module _ (d : Database) (collected : Time) (elapsed : String → Duration) where
  counted-collect_all :
      (cs : List Collection) (p : Progress)
      → All CountsItsOwn cs
      → count p.gathered.0 ≡ appended p.statuses
      → count (collect_all d collected elapsed cs p).gathered.0
        ≡ appended (collect_all d collected elapsed cs p).statuses
  unfolding collect_all collect_one new_scrape_status
  counted-collect_all [] p own h = h
  counted-collect_all (c ∷ cs) p (own, owns) h =
      counted-collect_all cs (collect_one d collected elapsed c p) owns (
        omega (
          arith,
          own p.gathered,
          appended-append p.statuses (
              new_scrape_status collected d.name (collector_of c) (elapsed c.name)
                (c.collect p.gathered).1 (c.collect p.gathered).2),
        ))

-- Every operational sample is accounted for, also where queries fail after some of their rows: the
-- counts of the statuses of the queries that add samples sum up to the samples that are returned.
pub appended-scrape_operational_samples :
    (f : Formats) (a : OperationalAnswers) (elapsed : String → Duration) (total : Duration)
    (d : Database) (collected : Time) (counters : Counters)
    → let p = scrape_operational_samples f a elapsed total d collected counters in
      (parts : List ScrapeStatusSample) × (whole : ScrapeStatusSample) × (p.statuses
        ≡ parts ++ whole ∷ [])
      × (whole.sample_count ≡ count p.gathered.0)
      × (count p.gathered.0 ≡ appended parts)
unfolding scrape_operational_samples new_scrape_status count empty
appended-scrape_operational_samples f a elapsed total d collected counters =
    let start : Progress = record { gathered = (empty, counters); statuses = []; joined = none } in
    let p : Progress = collect_all d collected elapsed (collections f a d collected) start in
    (
      p.statuses,
      new_scrape_status collected d.name "operational" total (count p.gathered.0) p.joined,
      refl,
      refl,
      counted-collect_all d collected elapsed (collections f a d collected) start
          (collections-CountTheirOwn f a d collected) refl,
    )
