-- ===== src/Consumers/Ranking.antt =====
-- The statements that takeTopSQLConsumers of collector/performance.go chooses.
use harry_performance_scrape.Prelude.{
  ℕ, ◌≡◌, refl, Bool, true, false, List, [], ◌∷◌, String, string_eq, arith, All, take, drop, keep,
  or_else, count_if, if◌then◌else◌, map,
}
use harry_performance_scrape.Prelude.Int.{ℤ, pos, negsuc, leb_ℤ, eqb_ℤ, int_eq, ◌≤ℤ◌}
use harry_performance_scrape.Prelude.Dict.{lookup}
use harry_performance_scrape.Prelude.Sorting.{
  IsFirst, sorted-IsSorted, take-before-drop, count_if-sorted,
}
use harry_performance_scrape.Texts.{Text, text}
use harry_performance_scrape.Consumers.{
  Ranked, Consumers, compare_int64, compare_text, descending, ranks_before, has_elapsed, ranked,
  take_top_sql_consumers,
}

compare_text_total :
    (s t : Text)
    → leb_ℤ (compare_text s t) (pos 0) ≡ false
    → leb_ℤ (compare_text t s) (pos 0) ≡ true
unfolding compare_text
compare_text_total [] [] h = refl
compare_text_total [] (b ∷ t) h = absurd (ground arith)
compare_text_total (a ∷ s) [] h = refl
compare_text_total (a ∷ s) (b ∷ t) h = ground (arith, compare_text_total s t)

compare_text_trans :
    (s t u : Text)
    → leb_ℤ (compare_text s t) (pos 0) ≡ true
    → leb_ℤ (compare_text t u) (pos 0) ≡ true
    → leb_ℤ (compare_text s u) (pos 0) ≡ true
unfolding compare_text
compare_text_trans [] t [] h k = refl
compare_text_trans [] t (c ∷ u) h k = refl
compare_text_trans (a ∷ s) [] u h k = absurd (ground arith)
compare_text_trans (a ∷ s) (b ∷ t) [] h k = absurd (ground arith)
compare_text_trans (a ∷ s) (b ∷ t) (c ∷ u) h k = ground (arith, compare_text_trans s t u)

same_parts : (a b : ℤ) → eqb_ℤ a b ≡ (if leb_ℤ a b then leb_ℤ b a else false)
same_parts (pos a) (pos b) = ground arith
same_parts (pos a) (negsuc b) = ground arith
same_parts (negsuc a) (pos b) = ground arith
same_parts (negsuc a) (negsuc b) = ground arith

descending_total :
    (a b : ℤ) (r q : Bool)
    → (r ≡ false → q ≡ true)
    → descending a b r ≡ false
    → descending b a q ≡ true
unfolding descending compare_int64
descending_total a b r q h k = ground (arith, same_parts a b, same_parts b a)

descending_trans :
    (a b c : ℤ) (r q p : Bool)
    → (r ≡ true → q ≡ true → p ≡ true)
    → descending a b r ≡ true
    → descending b c q ≡ true
    → descending a c p ≡ true
unfolding descending compare_int64
descending_trans a b c r q p h k l = ground (arith, same_parts a b, same_parts b c, same_parts a c)

ranks_total : (a b : Ranked) → ranks_before a b ≡ false → ranks_before b a ≡ true
unfolding ranks_before
ranks_total (i, a) (j, b) = descending_total a.elapsed_time_micro b.elapsed_time_micro _ _ (
    descending_total a.cpu_time_micro b.cpu_time_micro _ _ (
      descending_total a.user_io_wait_micro b.user_io_wait_micro _ _
        (compare_text_total (text i) (text j))))

ranks_trans :
    (a b c : Ranked) → ranks_before a b ≡ true → ranks_before b c ≡ true → ranks_before a c ≡ true
unfolding ranks_before
ranks_trans (i, a) (j, b) (k, c) =
    descending_trans a.elapsed_time_micro b.elapsed_time_micro c.elapsed_time_micro _ _ _ (
      descending_trans a.cpu_time_micro b.cpu_time_micro c.cpu_time_micro _ _ _ (
        descending_trans a.user_io_wait_micro b.user_io_wait_micro c.user_io_wait_micro _ _ _
          (compare_text_trans (text i) (text j) (text k))))

descending-le : (a b : ℤ) (r : Bool) → descending a b r ≡ true → b ≤ℤ a
unfolding descending compare_int64
descending-le a b r h = ground (arith, same_parts a b)

-- The accumulated deltas of a database.
abbrev pub deltas_of : String → Consumers → List Ranked
deltas_of database c = or_else (lookup database c.deltas) []

-- One entry has used at least the time of another.
abbrev pub UsesAsMuch : Ranked → Ranked → Type 0
UsesAsMuch a b = b.1.elapsed_time_micro ≤ℤ a.1.elapsed_time_micro

first_uses : (a : Ranked) (bs : List Ranked) → IsFirst ranks_before a bs → All (UsesAsMuch a) bs
unfolding ranks_before
first_uses a [] f = tt
first_uses (i, a) ((j, b) ∷ bs) (f, fs) =
    (descending-le a.elapsed_time_micro b.elapsed_time_micro _ f, first_uses (i, a) bs fs)

All-use :
    (xs ys : List Ranked)
    → All (λ a. IsFirst ranks_before a ys) xs
    → All (λ a. All (UsesAsMuch a) ys) xs
All-use [] ys h = tt
All-use (x ∷ xs) ys (f, fs) = (first_uses x ys f, All-use xs ys fs)

-- The statements chosen for details are the first of the ranking; each has used at least as much time
-- as every one that is not chosen; and the ranking is of just the statements that used any time, each
-- as often as the deltas hold it.
pub take_top_sql_consumers_lem :
    (database : String) (limit : ℕ) (c : Consumers)
    → ((take_top_sql_consumers database limit c).1
        ≡ map (λ r. r.0) (take limit (ranked database c)))
      × All
          (λ a. All (UsesAsMuch a) (drop limit (ranked database c)))
          (take limit (ranked database c))
      × ((p : Ranked → Bool)
          → count_if p (ranked database c) ≡ count_if p (keep has_elapsed (deltas_of database c)))
unfolding take_top_sql_consumers ranked
take_top_sql_consumers_lem database limit c = (
  refl,
  All-use _ _ (
      take-before-drop ranks_before limit (ranked database c) (
        sorted-IsSorted ranks_before ranks_total ranks_trans
          (keep has_elapsed (deltas_of database c)))),
  λ p. count_if-sorted ranks_before p (keep has_elapsed (deltas_of database c)),
)
