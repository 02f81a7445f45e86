-- ===== src/Sink/Covered.antt =====
-- The partitions that the rows of postgresql/postgresql.go go to.
use harry_performance_scrape.Prelude.{
  ◌≡◌, refl, Bool, true, false, ◌||◌, Option, none, some, List, [], ◌∷◌, ◌++◌, if◌then◌else◌, eqb,
  All, arith, inl, inr, Bool-cases, subst,
}
use harry_performance_scrape.Clock.{Time, is_zero}
use harry_performance_scrape.Texts.{Text, text}
use harry_performance_scrape.Errors.{Error}
use harry_performance_scrape.Sink.Delivery.{wrapped}
use harry_performance_scrape.Sink.Retention.{day_start_utc}
use harry_performance_scrape.Sink.Partitions.{
  Table, Partitions, unless_refused, has_partition, has_day, add_day, days_of, create_days,
  ensure_daily_partitions, ensure_each,
}

add_day_keeps :
    (d e : Time) (ds : List Time) → has_day d ds ≡ true → has_day d (add_day e ds) ≡ true
unfolding has_day
add_day_keeps d e ds h = ground arith

add_day_has : (d : Time) (ds : List Time) → has_day d (add_day d ds) ≡ true
unfolding has_day
add_day_has d ds = ground arith

days_of_keeps :
    (ts : List Time) (d : Time) (ds : List Time)
    → has_day d ds ≡ true
    → has_day d (days_of ts ds) ≡ true
unfolding days_of
days_of_keeps [] d ds h = h
days_of_keeps (t ∷ ts) d ds h = elim (Bool-cases (is_zero t)) [
  | inl zero ↦ rw zero (days_of_keeps ts d ds h)
  | inr some_time ↦
      rw some_time
        (days_of_keeps ts d (add_day (day_start_utc t) ds) (add_day_keeps d (day_start_utc t) ds h))
]

has_first :
    (b : Bool) (t : Time) (ts ds : List Time)
    → (b || has_day (day_start_utc t) (days_of ts (if b then ds else add_day (day_start_utc t) ds)))
      ≡ true
has_first true t ts ds = refl
has_first false t ts ds =
    days_of_keeps ts (day_start_utc t) (add_day (day_start_utc t) ds)
      (add_day_has (day_start_utc t) ds)

days_of_has :
    (ts ds : List Time)
    → All (λ t. (is_zero t || has_day (day_start_utc t) (days_of ts ds)) ≡ true) ts
unfolding days_of
days_of_has [] ds = tt
days_of_has (t ∷ ts) ds = (
  has_first (is_zero t) t ts ds,
  days_of_has ts (if is_zero t then ds else add_day (day_start_utc t) ds),
)

module _ (table : Table) (ps : Partitions) where
  -- A time has a partition of the table to go to, or is none.
  abbrev pub IsCovered : Time → Type 0
  IsCovered t = (is_zero t || has_partition table (day_start_utc t) ps) ≡ true

  each_day :
      (ds : List Time) (d : Time)
      → All (λ e. has_partition table e ps ≡ true) ds
      → has_day d ds ≡ true
      → has_partition table d ps ≡ true
  unfolding has_day
  each_day [] d h k = absurd (ground (arith, k))
  each_day (e ∷ ds) d (h, hs) k = elim (Bool-cases (eqb e d)) [
    | inl same ↦ subst (λ x. has_partition table x ps ≡ true) (ground (arith, same)) h
    | inr other ↦ each_day ds d hs (ground (arith, k, other))
  ]

either_way : (zero x y : Bool) → (x ≡ true → y ≡ true) → (zero || x) ≡ true → (zero || y) ≡ true
either_way true x y f h = refl
either_way false x y f h = f h

wrapped-none : (what : Text) (o : Option Error) → wrapped what o ≡ none → o ≡ none
wrapped-none what none h = refl
wrapped-none what (some e) h = absurd (ground (arith, h))

module _ (answer : Table → Time → Option Error) where
  kept :
      (o : Option Error) (table : Table) (d : Time) (ps : Partitions)
      (later : Partitions × Option Error)
      → has_partition table d ps ≡ true
      → has_partition table d later.0 ≡ true
      → has_partition table d (unless_refused o ps later).0 ≡ true
  kept none table d ps later h k = k
  kept (some e) table d ps later h k = h

  one_more :
      (table other : Table) (d e : Time) (ps : Partitions)
      → has_partition other d ps ≡ true
      → has_partition other d ((table, e) ∷ ps) ≡ true
  unfolding has_partition
  one_more table other d e ps h = ground (arith, h)

  itself :
      (table : Table) (d : Time) (ps : Partitions) → has_partition table d ((table, d) ∷ ps) ≡ true
  unfolding has_partition
  itself table d ps = ground arith

  create_days_keeps :
      (table other : Table) (ds : List Time) (d : Time) (ps : Partitions)
      → has_partition other d ps ≡ true
      → has_partition other d (create_days answer table ds ps).0 ≡ true
  unfolding create_days
  create_days_keeps table other [] d ps h = h
  create_days_keeps table other (e ∷ ds) d ps h =
      kept (answer table e) other d ps _ h
        (create_days_keeps table other ds d ((table, e) ∷ ps) (one_more table other d e ps h))

  gone_through :
      (P : Partitions × Option Error → Type 0) (o : Option Error) (ps : Partitions)
      (later : Partitions × Option Error)
      → (unless_refused o ps later).1 ≡ none
      → (o ≡ none → later.1 ≡ none → P later)
      → P (unless_refused o ps later)
  gone_through P none ps later h k = k refl h
  gone_through P (some e) ps later h k = absurd (ground (arith, h))

  create_days_has :
      (table : Table) (ds : List Time) (ps : Partitions)
      → (create_days answer table ds ps).1 ≡ none
      → All (λ d. has_partition table d (create_days answer table ds ps).0 ≡ true) ds
  unfolding create_days
  create_days_has table [] ps h = tt
  create_days_has table (d ∷ ds) ps h =
      gone_through (λ r. All (λ x. has_partition table x r.0 ≡ true) (d ∷ ds)) (answer table d) ps _
        h
        (λ fine k. (
          create_days_keeps table table ds d ((table, d) ∷ ps) (itself table d ps),
          create_days_has table ds ((table, d) ∷ ps) k,
        ))

  days-IsCovered :
      (table : Table) (ps : Partitions) (ds ts : List Time)
      → All (λ d. has_partition table d ps ≡ true) ds
      → All (λ t. (is_zero t || has_day (day_start_utc t) ds) ≡ true) ts
      → All (IsCovered table ps) ts
  days-IsCovered table ps ds [] h k = tt
  days-IsCovered table ps ds (t ∷ ts) h (k, ks) = (
    either_way (is_zero t) _ _ (each_day table ps ds (day_start_utc t) h) k,
    days-IsCovered table ps ds ts h ks,
  )

  ensure_daily_partitions-IsCovered :
      (table : Table) (ts : List Time) (ps : Partitions)
      → (ensure_daily_partitions answer table ts ps).1 ≡ none
      → All (IsCovered table (ensure_daily_partitions answer table ts ps).0) ts
  unfolding ensure_daily_partitions
  ensure_daily_partitions-IsCovered table ts ps h =
      days-IsCovered table _ (days_of ts []) ts (create_days_has table (days_of ts []) ps h)
        (days_of_has ts [])

  ensure_each_keeps :
      (qs : List (Text × Table × List Time)) (other : Table) (d : Time) (ps : Partitions)
      → has_partition other d ps ≡ true
      → has_partition other d (ensure_each answer qs ps).0 ≡ true
  unfolding ensure_each ensure_daily_partitions
  ensure_each_keeps [] other d ps h = h
  ensure_each_keeps (q ∷ qs) other d ps h =
      let made = ensure_daily_partitions answer q.1 q.2 ps in
      let more = create_days_keeps q.1 other (days_of q.2 []) d ps h in
      kept _ other d made.0 _ more (ensure_each_keeps qs other d made.0 more)

  kept-IsCovered :
      (qs : List (Text × Table × List Time)) (table : Table) (ts : List Time) (ps : Partitions)
      → All (IsCovered table ps) ts
      → All (IsCovered table (ensure_each answer qs ps).0) ts
  kept-IsCovered qs table [] ps h = tt
  kept-IsCovered qs table (t ∷ ts) ps (h, hs) = (
    either_way (is_zero t) _ _ (ensure_each_keeps qs table (day_start_utc t) ps) h,
    kept-IsCovered qs table ts ps hs,
  )

  pub ensure_each-IsCovered :
      (qs : List (Text × Table × List Time)) (ps : Partitions)
      → (ensure_each answer qs ps).1 ≡ none
      → All (λ q. All (IsCovered q.1 (ensure_each answer qs ps).0) q.2) qs
  unfolding ensure_each
  ensure_each-IsCovered [] ps h = tt
  ensure_each-IsCovered (q ∷ qs) ps h =
      let made = ensure_daily_partitions answer q.1 q.2 ps in
      gone_through (λ r. All (λ x. All (IsCovered x.1 r.0) x.2) (q ∷ qs))
        (wrapped (text "ensure " ++ q.0 ++ text " partitions: ") made.1) made.0 _ h
        (λ fine k. (
          kept-IsCovered qs q.1 q.2 made.0
              (ensure_daily_partitions-IsCovered q.1 q.2 ps (wrapped-none _ made.1 fine)),
          ensure_each-IsCovered qs made.0 k,
        ))
