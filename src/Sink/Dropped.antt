-- ===== src/Sink/Dropped.antt =====
-- That dropExpiredPartitions of postgresql/postgresql.go leaves nothing that is expired.
use harry_performance_scrape.Prelude.{
  ◌+◌, leb, ◌≡◌, refl, inl, inr, Option, none, List, [], ◌∷◌, All, keep, arith, Option-cases,
}
use harry_performance_scrape.Clock.{Time}
use harry_performance_scrape.Errors.{Error}
use harry_performance_scrape.Sink.Retention.{
  day, drop_days, Partitioned, drop_expired_partitions_for_table, drop_expired_partitions,
}

-- No day of the table is expired.
abbrev pub IsCurrent : Time → Partitioned → Type 0
IsCurrent cutoff t = keep (λ d. leb (d + day) cutoff) t.days ≡ []

drop_days_current :
    (drop_err : Time → Option Error) (cutoff : Time) (ds : List Time)
    → (drop_days drop_err cutoff ds).1 ≡ none
    → keep (λ d. leb (d + day) cutoff) (drop_days drop_err cutoff ds).0 ≡ []
unfolding drop_days keep
drop_days_current drop_err cutoff [] h = refl
drop_days_current drop_err cutoff (d ∷ ds) h = ground (arith, drop_days_current drop_err cutoff ds)

table-IsCurrent :
    (cutoff : Time) (t : Partitioned)
    → (drop_expired_partitions_for_table cutoff t).1 ≡ none
    → IsCurrent cutoff (drop_expired_partitions_for_table cutoff t).0
unfolding drop_expired_partitions_for_table
table-IsCurrent cutoff t h = elim (Option-cases t.list_err) [
  | inl fine ↦
      rw (fine, drop_expired_partitions_for_table)
        (drop_days_current t.drop_err cutoff t.days
          (rw (fine, drop_expired_partitions_for_table) at h))
  | inr (e, bad) ↦ absurd (ground arith)
]

-- Where it reports no error, no partition is left whose day ended before the cutoff or at it.
pub drop_expired_partitions-IsCurrent :
    (cutoff : Time) (ts : List Partitioned)
    → (drop_expired_partitions cutoff ts).1 ≡ none
    → All (IsCurrent cutoff) (drop_expired_partitions cutoff ts).0
unfolding drop_expired_partitions
drop_expired_partitions-IsCurrent cutoff [] h = tt
drop_expired_partitions-IsCurrent cutoff (t ∷ ts) h =
    elim (Option-cases (drop_expired_partitions_for_table cutoff t).1) [
      | inl fine ↦
          rw (fine, drop_expired_partitions)
            (
              table-IsCurrent cutoff t fine,
              drop_expired_partitions-IsCurrent cutoff ts (rw (fine, drop_expired_partitions) at h),
            )
      | inr (e, bad) ↦ absurd (ground arith)
    ]
