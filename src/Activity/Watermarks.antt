-- ===== src/Activity/Watermarks.antt =====
-- The watermarks of collector/activity.go: how far the samples of ASH have been stored.
use harry_performance_scrape.Prelude.{
  zero, suc, ◌≡◌, ◌∙◌, refl, ap, Bool, true, false, ◌&&◌, Option, none, some, is_some, List, [],
  ◌∷◌, String, if◌then◌else◌, ltb, max, arith, or_else, string_eq, ◌==◌, ==_refl, inl, inr,
  Bool-cases, sym, subst,
}
use harry_performance_scrape.Prelude.Dict.{
  lookup, insert, lookup-insert, HasUniqueKeys, insert-HasUniqueKeys,
}
use harry_performance_scrape.Clock.{Time, after}
use harry_performance_scrape.Errors.{Error}
use harry_performance_scrape.Config.Activity.{ActivityConfig}
use harry_performance_scrape.Database.{Database}
use harry_performance_scrape.Runtime.{Instance}
use harry_performance_scrape.Samples.Performance.{DatabaseActivitySample}
use harry_performance_scrape.Prelude.Int.{ℤ}
use harry_performance_scrape.Activity.{
  Watermarks, ActivityResult, Surroundings, Taken, is_ash, mark_latest, mark_all, take_result,
  take_results, nothing_taken, advance, sample_activity, activity_results, activity_batch,
  activity_summary,
}

-- The newest sample of ASH, and 0 where there is none.
abbrev pub ash_time : DatabaseActivitySample → Time
ash_time s = if is_ash s then s.sample_time else 0

unfoldable pub newest_of : List DatabaseActivitySample → Time
newest_of [] = 0
newest_of (s ∷ ss) = max (ash_time s) (newest_of ss)

-- The newest one that a successful result for the database has.
abbrev pub newest_in : String → Option Error → ActivityResult → Time
newest_in name none r = if r.database == name then newest_of r.samples else 0
newest_in name (some e) r = 0

unfoldable pub newest : String → List ActivityResult → Time
newest name [] = 0
newest name (r ∷ rs) = max (newest_in name r.err r) (newest name rs)

-- A time in the map, which holds none that is zero.
abbrev pub seen : Time → Option Time
seen zero = none
seen (suc n) = some (suc n)

or_else-seen : (n : Time) → or_else (seen n) 0 ≡ n
or_else-seen zero = refl
or_else-seen (suc n) = refl

later_max : (t n : Time) → ltb n t ≡ true → t ≡ max n t
later_max t n h = ground (arith, h)

older_max : (t n : Time) → ltb n t ≡ false → n ≡ max n t
older_max t n h = ground (arith, h)

seen_later : (t n : Time) → ltb n t ≡ true → some t ≡ seen t
seen_later zero n h = absurd (ground (arith, h))
seen_later (suc t) n h = refl

module _ (name : String) where
  marked :
      (ash : Bool) (t n : Time) (m : Watermarks)
      → lookup name m ≡ seen n
      → lookup name (if ash && after t (or_else (lookup name m) 0) then insert name t m else m)
        ≡ seen (max n (if ash then t else 0))
  marked false t n m h = h ∙ ap seen (omega arith)
  marked true t n m h =
      let known : or_else (lookup name m) 0 ≡ n = ap (λ o. or_else o 0) h ∙ or_else-seen n in
      elim (Bool-cases (ltb n t)) [
        | inl later ↦
            rw (known, later, lookup-insert m name t name, ==_refl name)
              (seen_later t n later ∙ ap seen (later_max t n later))
        | inr older ↦ rw (known, older) (h ∙ ap seen (older_max t n older))
      ]

  marked_other :
      (database : String) (ash : Bool) (t : Time) (m : Watermarks)
      → (database == name) ≡ false
      → lookup name (if ash then insert database t m else m) ≡ lookup name m
  marked_other database true t m h = lookup-insert m database t name ∙ rw h refl
  marked_other database false t m h = refl

  lookup-mark_all :
      (ss : List DatabaseActivitySample) (m : Watermarks) (n : Time)
      → lookup name m ≡ seen n
      → lookup name (mark_all name ss m) ≡ seen (max n (newest_of ss))
  unfolding mark_all newest_of
  lookup-mark_all [] m n h = h ∙ ap seen (omega arith)
  lookup-mark_all (s ∷ ss) m n h =
      lookup-mark_all ss (mark_latest name s m) (max n (ash_time s))
        (marked (is_ash s) s.sample_time n m h)
      ∙ ap seen (omega arith)

  lookup-mark_all_other :
      (database : String) (ss : List DatabaseActivitySample) (m : Watermarks)
      → (database == name) ≡ false
      → lookup name (mark_all database ss m) ≡ lookup name m
  unfolding mark_all
  lookup-mark_all_other database [] m h = refl
  lookup-mark_all_other database (s ∷ ss) m h =
      lookup-mark_all_other database ss (mark_latest database s m) h
      ∙ marked_other database (is_ash s && after s.sample_time (or_else (lookup database m) 0))
          s.sample_time m h

  lookup-take_result :
      (sampled : Time) (r : ActivityResult) (err : Option Error) (t : Taken) (n : Time)
      → lookup name t.latest_ash ≡ seen n
      → lookup name (take_result sampled r err t).latest_ash ≡ seen (max n (newest_in name err r))
  unfolding take_result
  lookup-take_result sampled r (some e) t n h = h ∙ ap seen (omega arith)
  lookup-take_result sampled r none t n h = elim (Bool-cases (r.database == name)) [
    | inl same ↦
        subst
          (λ d.
            lookup name (mark_all d r.samples t.latest_ash) ≡ seen (max n (newest_of r.samples)))
          (sym ((string_eq.same_iff r.database name).0 same))
          (lookup-mark_all r.samples t.latest_ash n h)
        ∙ rw same refl
    | inr other ↦
        lookup-mark_all_other r.database r.samples t.latest_ash other
        ∙ h
        ∙ rw other (ap seen (omega arith))
  ]

  lookup-take_results :
      (sampled : Time) (rs : List ActivityResult) (t : Taken) (n : Time)
      → lookup name t.latest_ash ≡ seen n
      → lookup name (take_results sampled rs t).latest_ash ≡ seen (max n (newest name rs))
  unfolding take_results newest
  lookup-take_results sampled [] t n h = h ∙ ap seen (omega arith)
  lookup-take_results sampled (r ∷ rs) t n h =
      lookup-take_results sampled rs (take_result sampled r r.err t)
        (max n (newest_in name r.err r)) (lookup-take_result sampled r r.err t n h)
      ∙ ap seen (omega arith)

mark_all-HasUniqueKeys :
    (database : String) (ss : List DatabaseActivitySample) (m : Watermarks)
    → HasUniqueKeys m
    → HasUniqueKeys (mark_all database ss m)
unfolding mark_all
mark_all-HasUniqueKeys database [] m h = h
mark_all-HasUniqueKeys database (s ∷ ss) m h =
    mark_all-HasUniqueKeys database ss (mark_latest database s m)
      (elim (Bool-cases (is_ash s && after s.sample_time (or_else (lookup database m) 0))) [
        | inl newer ↦ rw newer (insert-HasUniqueKeys database s.sample_time m h)
        | inr other ↦ rw other h
      ])

take_result-HasUniqueKeys :
    (sampled : Time) (r : ActivityResult) (err : Option Error) (t : Taken)
    → HasUniqueKeys t.latest_ash
    → HasUniqueKeys (take_result sampled r err t).latest_ash
unfolding take_result
take_result-HasUniqueKeys sampled r (some e) t h = h
take_result-HasUniqueKeys sampled r none t h =
    mark_all-HasUniqueKeys r.database r.samples t.latest_ash h

take_results-HasUniqueKeys :
    (sampled : Time) (rs : List ActivityResult) (t : Taken)
    → HasUniqueKeys t.latest_ash
    → HasUniqueKeys (take_results sampled rs t).latest_ash
unfolding take_results
take_results-HasUniqueKeys sampled [] t h = h
take_results-HasUniqueKeys sampled (r ∷ rs) t h =
    take_results-HasUniqueKeys sampled rs (take_result sampled r r.err t)
      (take_result-HasUniqueKeys sampled r r.err t h)

abbrev pub moved_to : Option Time → Option Time → Option Time
moved_to none old = old
moved_to (some t) old = some t

lookup-advance :
    (name : String) (m w : Watermarks)
    → HasUniqueKeys m
    → lookup name (advance m w) ≡ moved_to (lookup name m) (lookup name w)
unfolding advance lookup
lookup-advance name [] w h = refl
lookup-advance name (e ∷ m) w (new, h) =
    lookup-advance name m (insert e.0 e.1 w) h ∙ elim (Bool-cases (e.0 == name)) [
      | inl same ↦
          let gone : lookup name m ≡ none =
            subst (λ j. lookup j m ≡ none) ((string_eq.same_iff e.0 name).0 same) new in
          rw (gone, lookup-insert w e.0 e.1 name, same) refl
      | inr other ↦ rw (lookup-insert w e.0 e.1 name, other) refl
    ]

moved :
    (name : String) (failed : Bool) (m w : Watermarks) (n : Time)
    → HasUniqueKeys m
    → lookup name m ≡ seen n
    → lookup name (if failed then w else advance m w)
      ≡ (if failed then lookup name w else moved_to (seen n) (lookup name w))
moved name true m w n unique h = refl
moved name false m w n unique h =
    lookup-advance name m w unique ∙ ap (λ o. moved_to o (lookup name w)) h

-- A cycle of activity sampling moves the watermark of each database to the newest sample of ASH that a
-- successful result has for it, where the sink has taken the batch; where the sink fails, or there is
-- no such sample, the watermark stays as it was, so that the samples are asked for again.
pub sample_activity-watermarks :
    (env : Surroundings) (c : ActivityConfig) (scraper : Instance) (sampled : Time) (missed : ℤ)
    (trigger : String) (databases : List Database) (w : Watermarks) (name : String)
    → let after = sample_activity env c scraper sampled missed trigger databases w in
      let results = activity_results env c w sampled databases in
      lookup name after.watermarks ≡ (
        if is_some (env.sink after.batch after.summary)
        then lookup name w
        else moved_to (seen (newest name results)) (lookup name w))
unfolding sample_activity lookup
sample_activity-watermarks env c scraper sampled missed trigger databases w name =
    let results : List ActivityResult = activity_results env c w sampled databases in
    let t : Taken = take_results sampled results nothing_taken in
    moved name
      (is_some
        (env.sink (activity_batch env c scraper sampled missed trigger t) (activity_summary env t)))
      t.latest_ash w (newest name results)
      (take_results-HasUniqueKeys sampled results nothing_taken tt)
      (lookup-take_results name sampled results nothing_taken 0 refl ∙ ap seen (omega arith))
