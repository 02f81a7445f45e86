-- ===== src/Collection/Reports.antt =====
-- The statuses of ScrapeOperationalSamples of collector/operational.go.
use harry_performance_scrape.Prelude.{
  ◌≡◌, refl, Bool, true, not, ◌&&◌, Option, none, some, List, [], ◌∷◌, ◌++◌, map, String, arith, ap,
  ◌∙◌, sym, is_some,
}
use Prim.Native.String.{◌++◌ as string_append}
use mathlib.Core.List.{append-nil, append_assoc, map-append}
use harry_performance_scrape.Prelude.Int.{pos}
use harry_performance_scrape.Clock.{Time, Duration}
use harry_performance_scrape.Texts.{Text, truncated}
use harry_performance_scrape.Errors.{Error, join_errors}
use harry_performance_scrape.Status.{ScrapeStatusSample, new_scrape_status}
use harry_performance_scrape.Counters.{Counters}
use harry_performance_scrape.Database.{Database}
use harry_performance_scrape.Samples.Operational.{count, empty}
use harry_performance_scrape.Collection.{
  OperationalAnswers, Collection, collections, Progress, joined_with, collect_one, collect_all,
  scrape_operational_samples,
}
use harry_performance_scrape.Collection.DataGuard.{Formats}

abbrev pub all_succeed : List ScrapeStatusSample → Bool
all_succeed [] = true
all_succeed (s ∷ ss) = s.success && all_succeed ss

all_succeed-append :
    (xs : List ScrapeStatusSample) (s : ScrapeStatusSample)
    → all_succeed (xs ++ s ∷ []) ≡ all_succeed xs && s.success
all_succeed-append [] s = ground arith
all_succeed-append (x ∷ xs) s = ground (arith, all_succeed-append xs s)

is_some-joined_with :
    (name : String) (err joined : Option Error)
    → not (is_some (joined_with name err joined)) ≡ not (is_some joined) && not (is_some err)
unfolding join_errors
is_some-joined_with name none joined = ground arith
is_some-joined_with name (some e) none = refl
is_some-joined_with name (some e) (some j) = refl

-- What the names of the queries are in the statuses.
abbrev pub collector_of : Collection → String
collector_of c = string_append "operational." c.name

-- The collectors of the thirteen queries.
abbrev pub operational_names : List String
operational_names =
    "operational.database_status" ∷ "operational.database_identity" ∷ "operational.instance"
    ∷ "operational.instance_memory" ∷ "operational.resource_limits" ∷ "operational.tablespaces"
    ∷ "operational.tablespace_allocation" ∷ "operational.asm_diskgroups"
    ∷ "operational.system_counters" ∷ "operational.cpu_io_counters" ∷ "operational.wait_classes"
    ∷ "operational.system_metrics" ∷ "operational.dataguard" ∷ []

module _ (d : Database) (collected : Time) (elapsed : String → Duration) where
  success-collect_one :
      (c : Collection) (p : Progress)
      → not (is_some p.joined) ≡ all_succeed p.statuses
      → not (is_some (collect_one d collected elapsed c p).joined)
        ≡ all_succeed (collect_one d collected elapsed c p).statuses
  unfolding collect_one new_scrape_status
  success-collect_one c p h =
      is_some-joined_with c.name (c.collect p.gathered).2 p.joined
      ∙ ap (λ b. b && not (is_some (c.collect p.gathered).2)) h
      ∙ sym (
          all_succeed-append p.statuses (
            new_scrape_status collected d.name (collector_of c) (elapsed c.name)
              (c.collect p.gathered).1 (c.collect p.gathered).2))

  success-collect_all :
      (cs : List Collection) (p : Progress)
      → not (is_some p.joined) ≡ all_succeed p.statuses
      → not (is_some (collect_all d collected elapsed cs p).joined)
        ≡ all_succeed (collect_all d collected elapsed cs p).statuses
  unfolding collect_all
  success-collect_all [] p h = h
  success-collect_all (c ∷ cs) p h =
      success-collect_all cs (collect_one d collected elapsed c p) (success-collect_one c p h)

  collectors-collect_all :
      (cs : List Collection) (p : Progress)
      → map (λ s. s.collector) (collect_all d collected elapsed cs p).statuses
        ≡ map (λ s. s.collector) p.statuses ++ map collector_of cs
  unfolding collect_all collect_one new_scrape_status
  collectors-collect_all [] p = sym (append-nil (map (λ s. s.collector) p.statuses))
  collectors-collect_all (c ∷ cs) p =
      collectors-collect_all cs (collect_one d collected elapsed c p)
      ∙ simp (map-append, append_assoc)

-- The message of an error, of which a status carries 2048 bytes.
abbrev pub cut_message : Option Error → Option Text
cut_message none = none
cut_message (some e) = some (truncated 2048 e.message)

message_cut :
    (err : Option Error) → (new_scrape_status 0 "" "" (pos 0) 0 err).error_message ≡ cut_message err
unfolding new_scrape_status
message_cut none = refl
message_cut (some e) = refl

-- ScrapeOperationalSamples reports on each of its thirteen queries, in order, whatever fails, and then
-- on the whole: the whole is a success exactly when all thirteen are, and exactly when no error is
-- returned; its error message is that of the returned error, cut at 2048 bytes; and it counts all samples.
pub scrape_operational_samples_reports :
    (f : Formats) (a : OperationalAnswers) (elapsed : String → Duration) (total : Duration)
    (d : Database) (collected : Time) (counters : Counters)
    → let p = scrape_operational_samples f a elapsed total d collected counters in
      (parts : List ScrapeStatusSample) × (whole : ScrapeStatusSample) × (p.statuses
        ≡ parts ++ whole ∷ [])
      × (map (λ s. s.collector) parts ≡ operational_names)
      × (whole.success ≡ all_succeed parts)
      × (whole.success ≡ not (is_some p.joined))
      × (whole.error_message ≡ cut_message p.joined)
      × (whole.sample_count ≡ count p.gathered.0)
unfolding scrape_operational_samples collections new_scrape_status
scrape_operational_samples_reports f a elapsed total d collected counters =
    let start : Progress = record { gathered = (empty, counters); statuses = []; joined = none } in
    let p : Progress = collect_all d collected elapsed (collections f a d collected) start in
    (
      p.statuses,
      new_scrape_status collected d.name "operational" total (count p.gathered.0) p.joined,
      refl,
      collectors-collect_all d collected elapsed (collections f a d collected) start,
      success-collect_all d collected elapsed (collections f a d collected) start refl,
      refl,
      message_cut p.joined,
      refl,
    )
