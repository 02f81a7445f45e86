-- ===== src/Sink/Accounting/Ledger.antt =====
-- What becomes of the counts of ingestion of postgresql/postgresql.go: stored, on their way, or pending.
use harry_performance_scrape.Prelude.{
  ℕ, ◌+◌, ◌≡◌, refl, inl, inr, Bool, Option, none, some, List, [], ◌∷◌, ◌++◌, ap, ◌∙◌, sym,
  Bool-cases, or_else,
}
use harry_performance_scrape.Prelude.Int.{ℤ, pos, add64, wrap64}
use harry_performance_scrape.Prelude.Wrapping.{
  add64_comm, add64_assoc, add64-wrap64, add64_zero, add64_pos, add64_nothing,
}
use harry_performance_scrape.Prelude.Dict.{HasUniqueKeys}
use harry_performance_scrape.Clock.{Time}
use harry_performance_scrape.Errors.{Error}
use harry_performance_scrape.Samples.{SampleBatch}
use harry_performance_scrape.Sink.Ingest.{
  RepositoryIngestKey, ingest_key_eq, Counter, Counts, collect_repository_ingest,
}
use harry_performance_scrape.Sink.Ingest.Tally.{counted, counted_none}
use harry_performance_scrape.Sink.Ingest.Exact.{
  number_of, counted-collect_repository_ingest, collect_repository_ingest-HasUniqueKeys,
}
use harry_performance_scrape.Sink.Accounting.{
  Accounting, add_counts, record_repository_ingest, begin_flush, begin_if_free, is_flushed_recently,
  write_repository_ingest, taken_of, ended, end_flush, Event, recorded, flush_begins, flush_ends,
  step, run,
}
use harry_performance_scrape.Sink.Accounting.Joined.{counted-add_counts, IsProper, step-IsProper}

module _ (k : Counter) (key : RepositoryIngestKey) where
  -- What the committed transactions have added to the counter of a key, as int64.
  unfoldable pub stored_rows : List Counts → ℤ
  stored_rows [] = pos 0
  stored_rows (m ∷ ms) = add64 (counted k key m) (stored_rows ms)

  -- What is stored, on its way and pending.
  abbrev ledger_of : List Counts → Option Counts → Counts → ℤ
  ledger_of stored in_flight pending =
      add64 (stored_rows stored)
        (add64 (counted k key (or_else in_flight [])) (counted k key pending))

  abbrev pub ledger : Accounting → ℤ
  ledger s = ledger_of s.stored s.in_flight s.pending

  -- The rows of the batches that were recorded.
  abbrev pub rows_in : Event → ℕ
  rows_in (recorded b) = number_of key b k
  rows_in (flush_begins force now) = 0
  rows_in (flush_ends tx) = 0

  unfoldable pub recorded_rows : List Event → ℕ
  recorded_rows [] = 0
  recorded_rows (e ∷ es) = rows_in e + recorded_rows es

  stored_rows-append :
      (ms : List Counts) (m : Counts)
      → stored_rows (ms ++ m ∷ []) ≡ add64 (stored_rows ms) (counted k key m)
  unfolding stored_rows
  stored_rows-append [] m = add64_comm (counted k key m) (pos 0)
  stored_rows-append (n ∷ ms) m =
      ap (add64 (counted k key n)) (stored_rows-append ms m)
      ∙ sym (add64_assoc (counted k key n) (stored_rows ms) (counted k key m))

  ledger-record :
      (b : SampleBatch) (s : Accounting)
      → ledger (record_repository_ingest b s) ≡ add64 (ledger s) (wrap64 (pos (number_of key b k)))
  unfolding record_repository_ingest
  ledger-record b s =
      let stored : ℤ = stored_rows s.stored in
      let taken : ℤ = counted k key (or_else s.in_flight []) in
      let waits : ℤ = counted k key s.pending in
      let more : ℤ = wrap64 (pos (number_of key b k)) in
      let grown : wrap64 (counted k key (add_counts (collect_repository_ingest b) s.pending))
          ≡ add64 waits more =
        counted-add_counts k key (collect_repository_ingest b) s.pending
          (collect_repository_ingest-HasUniqueKeys b)
        ∙ ap (add64 waits) (counted-collect_repository_ingest key b k) in
      ap (add64 stored) (
        sym
          (add64-wrap64 taken (counted k key (add_counts (collect_repository_ingest b) s.pending)))
        ∙ ap (add64 taken) grown
        ∙ sym (add64_assoc taken waits more))
      ∙ sym (add64_assoc stored (add64 taken waits) more)

  ledger_of-taken :
      (stored : List Counts) (m : Counts)
      → ledger_of stored (taken_of m) [] ≡ ledger_of stored none m
  ledger_of-taken stored [] = refl
  ledger_of-taken stored (e ∷ es) =
      ap (add64 (stored_rows stored)) (add64_comm (counted k key (e ∷ es)) (counted k key []))

  ledger-begin :
      (force : Bool) (now : Time) (s : Accounting)
      → s.in_flight ≡ none
      → ledger (begin_flush force now s) ≡ ledger s
  unfolding begin_flush
  ledger-begin force now s idle = elim (Bool-cases (is_flushed_recently force now s)) [
    | inl early ↦ rw early refl
    | inr due ↦
        rw due
          (ledger_of-taken s.stored s.pending ∙ ap (λ o. ledger_of s.stored o s.pending) (sym idle))
  ]

  ledger-begin_if_free :
      (o : Option Counts) (force : Bool) (now : Time) (s : Accounting)
      → s.in_flight ≡ o
      → ledger (begin_if_free o force now s) ≡ ledger s
  unfolding begin_if_free
  ledger-begin_if_free none force now s idle = ledger-begin force now s idle
  ledger-begin_if_free (some taken) force now s busy = refl

  ledger-ended :
      (err : Option Error) (o : Option Counts) (s : Accounting)
      → HasUniqueKeys (or_else o [])
      → ledger (ended err o s) ≡ ledger_of s.stored o s.pending
  unfolding ended
  ledger-ended err none s h = refl
  ledger-ended none (some taken) s h =
      let stored : ℤ = stored_rows s.stored in
      let mine : ℤ = counted k key taken in
      let waits : ℤ = counted k key s.pending in
      ap (λ t. add64 t (add64 (counted k key []) waits)) (stored_rows-append s.stored taken)
      ∙ add64_assoc stored mine (add64 (counted k key []) waits)
      ∙ ap (λ t. add64 stored (add64 mine t))
          (ap (λ t. add64 t waits) (counted_none k key)
            ∙ add64_comm (pos 0) waits
            ∙ add64_zero waits)
      ∙ ap (add64 stored) (add64-wrap64 mine waits)
  ledger-ended (some e) (some taken) s h =
      let mine : ℤ = counted k key taken in
      let waits : ℤ = counted k key s.pending in
      let joined : ℤ = counted k key (add_counts taken s.pending) in
      ap (add64 (stored_rows s.stored)) (
        ap (λ t. add64 t joined) (counted_none k key)
        ∙ add64_comm (pos 0) joined
        ∙ add64_zero joined
        ∙ counted-add_counts k key taken s.pending h
        ∙ add64_comm waits mine)

  nothing : (s : Accounting) → ledger s ≡ add64 (ledger s) (wrap64 (pos 0))
  nothing s =
      add64_nothing (stored_rows s.stored)
        (add64 (counted k key (or_else s.in_flight [])) (counted k key s.pending))

  ledger-step :
      (e : Event) (s : Accounting)
      → IsProper s
      → ledger (step e s) ≡ add64 (ledger s) (wrap64 (pos (rows_in e)))
  unfolding step end_flush
  ledger-step (recorded b) s h = ledger-record b s
  ledger-step (flush_begins force now) s h =
      ledger-begin_if_free s.in_flight force now s refl ∙ nothing s
  ledger-step (flush_ends tx) s h =
      ledger-ended (write_repository_ingest tx) s.in_flight s h.in_flight ∙ nothing s

  -- However recordings and flushes interleave and however the writes fare, no row is lost or counted
  -- twice: what is stored, on its way and pending is what it was and the rows of the recorded batches
  -- that have the database and the day, for each kind of rows, modulo 2^64.
  pub ledger-run :
      (es : List Event) (s : Accounting)
      → IsProper s
      → ledger (run es s) ≡ add64 (ledger s) (wrap64 (pos (recorded_rows es)))
  unfolding run recorded_rows
  ledger-run [] s h = nothing s
  ledger-run (e ∷ es) s h =
      ledger-run es (step e s) (step-IsProper e s h)
      ∙ ap (λ t. add64 t (wrap64 (pos (recorded_rows es)))) (ledger-step e s h)
      ∙ add64_assoc (ledger s) (wrap64 (pos (rows_in e))) (wrap64 (pos (recorded_rows es)))
      ∙ ap (add64 (ledger s)) (add64_pos (rows_in e) (recorded_rows es))
