-- ===== src/Activity/Accounts.antt =====
-- What a cycle of collector/activity.go reports, and what it does to the databases.
use harry_performance_scrape.Prelude.{
  ℕ, suc, ◌+◌, ◌≡◌, ◌≢◌, refl, ◌∙◌, sym, ap, Bool, true, false, not, Option, none, some, List, [],
  ◌∷◌, ◌++◌, map, String, if◌then◌else◌, length, count_if, arith, All, inl, inr, length-append,
}
use mathlib.Core.List.{map-append, append-nil, append_assoc}
use harry_performance_scrape.Prelude.Int.{ℤ}
use harry_performance_scrape.Clock.{Time}
use harry_performance_scrape.Texts.{text_eq}
use harry_performance_scrape.Errors.{Error}
use harry_performance_scrape.Status.{ScrapeStatusSample, new_scrape_status}
use harry_performance_scrape.Connection.{is_active}
use harry_performance_scrape.Config.Activity.{ActivityConfig}
use harry_performance_scrape.Database.{
  Database, quarantine_connection_failure, activity_unavailable, suspend_activity,
}
use harry_performance_scrape.Database.Availability.{
  IsSettled, Says, quarantine_connection_failure-IsSettled,
}
use harry_performance_scrape.Runtime.{Instance}
use harry_performance_scrape.Activity.{
  Watermarks, ActivityResult, Surroundings, sample_database, unless_suspended,
  scrape_activity_samples, sampled_by, after_failure, Taken, take_result, take_results,
  nothing_taken, activity_results, sample_activity,
}

abbrev pub sample_counts : List ScrapeStatusSample → ℕ
sample_counts [] = 0
sample_counts (s ∷ ss) = s.sample_count + sample_counts ss

sample_counts-append :
    (xs : List ScrapeStatusSample) (s : ScrapeStatusSample)
    → sample_counts (xs ++ s ∷ []) ≡ sample_counts xs + s.sample_count
sample_counts-append [] s = omega arith
sample_counts-append (x ∷ xs) s = omega (arith, sample_counts-append xs s)

abbrev pub failures : List ScrapeStatusSample → ℕ
failures ss = count_if (λ s. not s.success) ss

failures-append :
    (xs : List ScrapeStatusSample) (s : ScrapeStatusSample)
    → failures (xs ++ s ∷ []) ≡ (if not s.success then suc (failures xs) else failures xs)
unfolding count_if
failures-append [] s = refl
failures-append (x ∷ xs) s = ground (arith, failures-append xs s)

-- The results so far are reported by their databases' names.
pub record Accounts (names : List String) (t : Taken) : Type 0 where
  pub named : map (λ s. s.database) t.statuses ≡ names
  pub failed : t.total_errors ≡ failures t.statuses
  pub counted : length t.activity ≡ sample_counts t.statuses

take_result-Accounts :
    (sampled : Time) (names : List String) (r : ActivityResult) (err : Option Error) (t : Taken)
    → Accounts names t
    → Accounts (names ++ r.database ∷ []) (take_result sampled r err t)
unfolding take_result new_scrape_status
take_result-Accounts sampled names r (some e) t h = record {
  named = simp (map-append, h.named);
  failed =
      ap suc h.failed
      ∙ sym (
          failures-append t.statuses
            (new_scrape_status sampled r.database "activity" r.duration 0 (some e)));
  counted = omega (
    arith,
    h.counted,
    sample_counts-append t.statuses
        (new_scrape_status sampled r.database "activity" r.duration 0 (some e)),
  );
}
take_result-Accounts sampled names r none t h = record {
  named = simp (map-append, h.named);
  failed =
      h.failed
      ∙ sym (
          failures-append t.statuses
            (new_scrape_status sampled r.database "activity" r.duration (length r.samples) none));
  counted = omega (
    arith,
    h.counted,
    length-append t.activity r.samples,
    sample_counts-append t.statuses
        (new_scrape_status sampled r.database "activity" r.duration (length r.samples) none),
  );
}

take_results-Accounts :
    (sampled : Time) (names : List String) (rs : List ActivityResult) (t : Taken)
    → Accounts names t
    → Accounts (names ++ map (λ r. r.database) rs) (take_results sampled rs t)
unfolding take_results
take_results-Accounts sampled names [] t h = rw (append-nil names) h
take_results-Accounts sampled names (r ∷ rs) t h =
    rw⁻¹ (append_assoc names (r.database ∷ []) (map (λ r. r.database) rs)) (
      take_results-Accounts sampled (names ++ r.database ∷ []) rs (take_result sampled r r.err t)
        (take_result-Accounts sampled names r r.err t h))

picked :
    (b : Bool) (x y : Database × ActivityResult) (P : Database × ActivityResult → Type 0)
    → P x
    → P y
    → P (if b then x else y)
picked true x y P h k = h
picked false x y P h k = k

either : (b : Bool) (x y : Database) → IsSettled x → IsSettled y → IsSettled (if b then x else y)
either true x y h k = h
either false x y h k = k

suspend_activity-IsSettled :
    (e : Error) (d : Database)
    → e.message ≢ []
    → IsSettled d
    → IsSettled (suspend_activity (some e) d)
unfolding suspend_activity
suspend_activity-IsSettled e d says (inl a) = inl (record {
  ready = a.ready;
  up = a.up;
  state = a.state;
  not_queued = a.not_queued;
  connected = a.connected;
})
suspend_activity-IsSettled e d says (inr b) = inr (record {
  ready = b.ready;
  down = b.down;
  state = b.state;
  queued = b.queued;
  suspended = says;
})

module _ (env : Surroundings) (c : ActivityConfig) (w : Watermarks) (sampled : Time) where
  unless_suspended-named :
      (o : Option Error) (d : Database) → (unless_suspended env c w sampled o d).1.database ≡ d.name
  unfolding sampled_by
  unless_suspended-named none d = refl
  unless_suspended-named (some e) d = refl

  sample_database-named : (d : Database) → (sample_database env c w sampled d).1.database ≡ d.name
  unfolding sample_database
  sample_database-named d =
      picked (not d.startup_ready) _ _ (λ x. x.1.database ≡ d.name) refl
        (picked (not (is_active d.connection.state)) _ _ (λ x. x.1.database ≡ d.name) refl
          (unless_suspended-named (activity_unavailable d) d))

  results-named :
      (ds : List Database)
      → map (λ r. r.database) (activity_results env c w sampled ds) ≡ map (λ d. d.name) ds
  results-named [] = refl
  results-named (d ∷ ds) = simp (sample_database-named d, results-named ds)

  after_failure-IsSettled :
      (err : Option Error) (d : Database)
      → Says err
      → IsSettled d
      → IsSettled (after_failure err env.at d)
  unfolding after_failure suspend_activity
  after_failure-IsSettled none d says h = h
  after_failure-IsSettled (some e) d says h =
      let quarantined : Database × Bool = quarantine_connection_failure (some e) env.at d in
      let settled : IsSettled quarantined.0 =
        quarantine_connection_failure-IsSettled (some e) env.at d says h in
      either quarantined.1 quarantined.0 (suspend_activity (some e) quarantined.0) settled
        (suspend_activity-IsSettled e quarantined.0 says settled)

  unless_suspended-IsSettled :
      (o : Option Error) (d : Database)
      → Says (scrape_activity_samples c (env.answers d) w d sampled).1
      → IsSettled d
      → IsSettled (unless_suspended env c w sampled o d).0
  unfolding sampled_by
  unless_suspended-IsSettled none d says h =
      after_failure-IsSettled (scrape_activity_samples c (env.answers d) w d sampled).1 d says h
  unless_suspended-IsSettled (some e) d says h = h

  sample_database-IsSettled :
      (d : Database)
      → Says (scrape_activity_samples c (env.answers d) w d sampled).1
      → IsSettled d
      → IsSettled (sample_database env c w sampled d).0
  unfolding sample_database
  sample_database-IsSettled d says h =
      picked (not d.startup_ready) _ _ (λ x. IsSettled x.0) h
        (picked (not (is_active d.connection.state)) _ _ (λ x. IsSettled x.0) h
          (unless_suspended-IsSettled (activity_unavailable d) d says h))

  databases-IsSettled :
      (ds : List Database)
      → All (λ d. Says (scrape_activity_samples c (env.answers d) w d sampled).1) ds
      → All IsSettled ds
      → All IsSettled (map (λ x. x.0) (map (sample_database env c w sampled) ds))
  databases-IsSettled [] says h = h
  databases-IsSettled (d ∷ ds) (s, says) (h, hs) =
      (sample_database-IsSettled d s h, databases-IsSettled ds says hs)

-- A cycle of activity sampling reports one status for each database; the errors of its summary are the statuses that failed, and the samples of its batch are those that the statuses count.
pub sample_activity_accounts :
    (env : Surroundings) (c : ActivityConfig) (scraper : Instance) (sampled : Time) (missed : ℤ)
    (trigger : String) (databases : List Database) (w : Watermarks)
    → let after = sample_activity env c scraper sampled missed trigger databases w in
      (map (λ s. s.database) after.batch.scrape_statuses ≡ map (λ d. d.name) databases)
      × (after.summary.total_errors ≡ failures after.batch.scrape_statuses)
      × (length after.batch.performance.database_activity
          ≡ sample_counts after.batch.scrape_statuses)
unfolding sample_activity count_if
sample_activity_accounts env c scraper sampled missed trigger databases w =
    let h =
      take_results-Accounts sampled [] (activity_results env c w sampled databases) nothing_taken
        (record { named = refl; failed = refl; counted = refl }) in
    (h.named ∙ results-named env c w sampled databases, h.failed, h.counted)

-- Where the errors of the driver have a message, a cycle of activity sampling leaves settled databases
-- settled: each is in service, or out of it and queued for recovery.
pub sample_activity-IsSettled :
    (env : Surroundings) (c : ActivityConfig) (scraper : Instance) (sampled : Time) (missed : ℤ)
    (trigger : String) (databases : List Database) (w : Watermarks)
    → All (λ d. Says (scrape_activity_samples c (env.answers d) w d sampled).1) databases
    → All IsSettled databases
    → All IsSettled (sample_activity env c scraper sampled missed trigger databases w).databases
unfolding sample_activity
sample_activity-IsSettled env c scraper sampled missed trigger databases w says h =
    databases-IsSettled env c w sampled databases says h
