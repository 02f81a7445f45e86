-- ===== src/Sink/Accounting/Joined.antt =====
-- What adding counts to others of postgresql/postgresql.go does to each counter, and that the maps have
-- each key once.
use harry_performance_scrape.Prelude.{
  ◌≡◌, refl, inl, inr, Bool, Option, none, some, [], ◌∷◌, if◌then◌else◌, arith, ap, ◌∙◌, sym,
  Bool-cases, or_else, ◌==◌, subst,
}
use harry_performance_scrape.Prelude.Int.{add64, wrap64}
use harry_performance_scrape.Prelude.Wrapping.{add64_zero, wrap64-add64}
use harry_performance_scrape.Prelude.Dict.{lookup, insert, HasUniqueKeys, insert-HasUniqueKeys}
use harry_performance_scrape.Clock.{Time}
use harry_performance_scrape.Errors.{Error}
use harry_performance_scrape.Sink.Ingest.{
  RepositoryIngestKey, ingest_key_eq, RepositoryIngestCounts, add, Counter, rows_of, Counts,
  entry_of, collect_repository_ingest,
}
use harry_performance_scrape.Sink.Ingest.Tally.{counted, counted-insert, rows_of-add, counted_none}
use harry_performance_scrape.Sink.Accounting.{
  Accounting, add_counts, record_repository_ingest, begin_flush, begin_if_free, is_flushed_recently,
  write_repository_ingest, taken_of, ended, end_flush, Event, recorded, flush_begins, flush_ends,
  step,
}

module _ (k : Counter) (key : RepositoryIngestKey) where
  counted-cons :
      (e : RepositoryIngestKey × RepositoryIngestCounts) (es : Counts)
      → counted k key (e ∷ es) ≡ (if e.0 == key then rows_of k e.1 else counted k key es)
  unfolding lookup
  counted-cons e es = elim (Bool-cases (e.0 == key)) [
    | inl same ↦ rw same refl
    | inr other ↦ rw other refl
  ]

  -- An entry for another key leaves the counter as it is.
  counted-add_counts_other :
      (es p : Counts) → lookup key es ≡ none → counted k key (add_counts es p) ≡ counted k key p
  unfolding add_counts lookup
  counted-add_counts_other [] p h = refl
  counted-add_counts_other (e ∷ es) p h = elim (Bool-cases (e.0 == key)) [
    | inl same ↦ absurd (ground (arith, same, h))
    | inr other ↦
        counted-add_counts_other es (insert e.0 (add (entry_of e.0 p) e.1) p) (rw other at h)
        ∙ counted-insert k key e.0 (add (entry_of e.0 p) e.1) p
        ∙ rw other refl
  ]

  counted-add_entry :
      (at : RepositoryIngestKey) (c : RepositoryIngestCounts) (p : Counts)
      → counted k key (insert at (add (entry_of at p) c) p)
        ≡ (if at == key then add64 (counted k key p) (rows_of k c) else counted k key p)
  counted-add_entry at c p =
      counted-insert k key at (add (entry_of at p) c) p ∙ elim (Bool-cases (at == key)) [
        | inl same ↦ rw same (
            rows_of-add k (entry_of at p) c
            ∙ ap (λ j. add64 (counted k j p) (rows_of k c))
                ((ingest_key_eq.same_iff at key).0 same))
        | inr other ↦ rw other refl
      ]

  pub counted-add_counts :
      (es p : Counts)
      → HasUniqueKeys es
      → wrap64 (counted k key (add_counts es p)) ≡ add64 (counted k key p) (counted k key es)
  unfolding add_counts
  counted-add_counts [] p h =
      sym (add64_zero (counted k key p)) ∙ ap (add64 (counted k key p)) (sym (counted_none k key))
  counted-add_counts (e ∷ es) p (new, h) =
      let p' : Counts = insert e.0 (add (entry_of e.0 p) e.1) p in
      elim (Bool-cases (e.0 == key)) [
        | inl same ↦
            let gone : lookup key es ≡ none =
              subst (λ j. lookup j es ≡ none) ((ingest_key_eq.same_iff e.0 key).0 same) new in
            let sum : counted k key p' ≡ add64 (counted k key p) (rows_of k e.1) =
              counted-add_entry e.0 e.1 p ∙ rw same refl in
            let head : counted k key (e ∷ es) ≡ rows_of k e.1 = counted-cons e es ∙ rw same refl in
            ap wrap64 (counted-add_counts_other es p' gone ∙ sum)
            ∙ wrap64-add64 (counted k key p) (rows_of k e.1)
            ∙ ap (add64 (counted k key p)) (sym head)
        | inr other ↦
            let same : counted k key p' ≡ counted k key p =
              counted-add_entry e.0 e.1 p ∙ rw other refl in
            let tail : counted k key (e ∷ es) ≡ counted k key es =
              counted-cons e es ∙ rw other refl in
            counted-add_counts es p' h
            ∙ ap (λ t. add64 t (counted k key es)) same
            ∙ ap (add64 (counted k key p)) (sym tail)
      ]

-- The maps of the accounting have each key once, as Go's maps do.
pub record IsProper (s : Accounting) : Type 0 where
  pub pending : HasUniqueKeys s.pending
  pub in_flight : HasUniqueKeys (or_else s.in_flight [])

add_counts-HasUniqueKeys : (es p : Counts) → HasUniqueKeys p → HasUniqueKeys (add_counts es p)
unfolding add_counts
add_counts-HasUniqueKeys [] p h = h
add_counts-HasUniqueKeys (e ∷ es) p h =
    add_counts-HasUniqueKeys es (insert e.0 (add (entry_of e.0 p) e.1) p)
      (insert-HasUniqueKeys e.0 (add (entry_of e.0 p) e.1) p h)

taken_of-HasUniqueKeys : (m : Counts) → HasUniqueKeys m → HasUniqueKeys (or_else (taken_of m) [])
taken_of-HasUniqueKeys [] h = h
taken_of-HasUniqueKeys (e ∷ es) h = h

begin_flush-IsProper :
    (force : Bool) (now : Time) (s : Accounting) → IsProper s → IsProper (begin_flush force now s)
unfolding begin_flush
begin_flush-IsProper force now s h = elim (Bool-cases (is_flushed_recently force now s)) [
  | inl early ↦ rw early h
  | inr due ↦
      rw due (record { pending = tt; in_flight = taken_of-HasUniqueKeys s.pending h.pending })
]

ended-IsProper :
    (err : Option Error) (o : Option Counts) (s : Accounting)
    → HasUniqueKeys s.pending
    → IsProper (ended err o s)
unfolding ended
ended-IsProper err none s h = record { pending = h; in_flight = tt }
ended-IsProper none (some taken) s h = record { pending = h; in_flight = tt }
ended-IsProper (some e) (some taken) s h = record {
  pending = add_counts-HasUniqueKeys taken s.pending h;
  in_flight = tt;
}

begin_if_free-IsProper :
    (o : Option Counts) (force : Bool) (now : Time) (s : Accounting)
    → IsProper s
    → IsProper (begin_if_free o force now s)
unfolding begin_if_free
begin_if_free-IsProper none force now s h = begin_flush-IsProper force now s h
begin_if_free-IsProper (some taken) force now s h = h

pub step-IsProper : (e : Event) (s : Accounting) → IsProper s → IsProper (step e s)
unfolding step record_repository_ingest end_flush
step-IsProper (recorded b) s h = record {
  pending = add_counts-HasUniqueKeys (collect_repository_ingest b) s.pending h.pending;
  in_flight = h.in_flight;
}
step-IsProper (flush_begins force now) s h = begin_if_free-IsProper s.in_flight force now s h
step-IsProper (flush_ends tx) s h =
    ended-IsProper (write_repository_ingest tx) s.in_flight s h.pending
