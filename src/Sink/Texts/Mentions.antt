-- ===== src/Sink/Texts/Mentions.antt =====
-- Which samples of a batch the references, cursors and plans of postgresql/postgresql.go are taken from.
use harry_performance_scrape.Prelude.{
  ◌≡◌, refl, ◌∙◌, ap, sym, ◌||◌, Option, none, some, List, [], ◌∷◌, ◌++◌, String, if◌then◌else◌,
  inl, inr, Bool-cases,
}
use harry_performance_scrape.Prelude.Dict.{Dict, lookup}
use harry_performance_scrape.Clock.{Time, is_zero}
use harry_performance_scrape.Samples.Performance.{SqlSample, SqlTextSample, PerformanceSamples}
use harry_performance_scrape.Sink.Texts.{
  SqlTextKey, text_key_eq, SqlCursorMetadataKey, cursor_key_eq, is_blank, References, add_reference,
  add_optional_reference, Texts, add_sql, add_sql_texts, add_pairs, collect_sql_text_updates,
  described_cursor, referenced_plan, keep_known, collect_latest, collect_sql_cursor_metadata,
  collect_sql_plan_references,
}
use harry_performance_scrape.Sink.Texts.Newest.{
  latest, keep_all, keep_all-append, lookup-keep_all_new,
}

-- What a loop over samples adds, as entries.
module _ {V : Type 0} (time_of : V → Time) (key_of : SqlSample → Option SqlCursorMetadataKey)
    (value_of : SqlSample → V) where
  abbrev if_known : Option SqlCursorMetadataKey → V → List (SqlCursorMetadataKey × V)
  if_known none v = []
  if_known (some k) v = (k, v) ∷ []

  abbrev pub entries : List SqlSample → List (SqlCursorMetadataKey × V)
  entries [] = []
  entries (s ∷ ss) = if_known (key_of s) (value_of s) ++ entries ss

  keep_known_all :
      (o : Option SqlCursorMetadataKey) (v : V) (m : Dict SqlCursorMetadataKey V)
      → keep_known time_of key_of value_of o v m ≡ keep_all time_of (if_known o v) m
  unfolding keep_all
  keep_known_all none v m = refl
  keep_known_all (some k) v m = refl

  collect_latest_all :
      (ss : List SqlSample) (m : Dict SqlCursorMetadataKey V)
      → collect_latest time_of key_of value_of ss m ≡ keep_all time_of (entries ss) m
  unfolding collect_latest keep_all
  collect_latest_all [] m = refl
  collect_latest_all (s ∷ ss) m =
      collect_latest_all ss (keep_known time_of key_of value_of (key_of s) (value_of s) m)
      ∙ ap (keep_all time_of (entries ss)) (keep_known_all (key_of s) (value_of s) m)
      ∙ sym (keep_all-append time_of (if_known (key_of s) (value_of s)) (entries ss) m)

abbrev pub now_of : Time → Time
now_of t = t

-- The mention of a statement, where it can be a reference.
abbrev pub mention : String → String → Time → List (SqlTextKey × Time)
mention database sql_id at =
    if is_blank database || is_blank sql_id || is_zero at
    then []
    else (record { database = database; sql_id = sql_id }, at) ∷ []

abbrev pub optional_mention : String → Option String → Time → List (SqlTextKey × Time)
optional_mention database none at = []
optional_mention database (some sql_id) at = mention database sql_id at

add_reference_all :
    (database sql_id : String) (at : Time) (m : References)
    → add_reference database sql_id at m ≡ keep_all now_of (mention database sql_id at) m
unfolding add_reference keep_all
add_reference_all database sql_id at m =
    elim (Bool-cases (is_blank database || is_blank sql_id || is_zero at)) [
      | inl blank ↦ rw blank refl
      | inr fine ↦ rw fine refl
    ]

add_optional_reference_all :
    (database : String) (o : Option String) (at : Time) (m : References)
    → add_optional_reference database o at m ≡ keep_all now_of (optional_mention database o at) m
unfolding add_optional_reference keep_all
add_optional_reference_all database none at m = refl
add_optional_reference_all database (some sql_id) at m = add_reference_all database sql_id at m

abbrev pub mentions_of :
    {A : Type 0} → (A → List (SqlTextKey × Time)) → List A → List (SqlTextKey × Time)
mentions_of f [] = []
mentions_of f (s ∷ ss) = f s ++ mentions_of f ss

module _ {A : Type 0} (database : A → String) (one other : A → Option String) (at : A → Time) where
  abbrev pub pair_of : A → List (SqlTextKey × Time)
  pair_of s =
      optional_mention (database s) (one s) (at s) ++ optional_mention (database s) (other s) (at s)

  add_pairs_all :
      (ss : List A) (m : References)
      → add_pairs database one other at ss m ≡ keep_all now_of (mentions_of pair_of ss) m
  unfolding add_pairs keep_all
  add_pairs_all [] m = refl
  add_pairs_all (s ∷ ss) m =
      add_pairs_all ss _
      ∙ ap (keep_all now_of (mentions_of pair_of ss)) (
          add_optional_reference_all (database s) (other s) (at s)
            (add_optional_reference (database s) (one s) (at s) m)
          ∙ ap (keep_all now_of (optional_mention (database s) (other s) (at s)))
              (add_optional_reference_all (database s) (one s) (at s) m)
          ∙ sym (
              keep_all-append now_of (optional_mention (database s) (one s) (at s))
                (optional_mention (database s) (other s) (at s)) m))
      ∙ sym (keep_all-append now_of (pair_of s) (mentions_of pair_of ss) m)

  after_pairs :
      (ss : List A) (m : References) (before : List (SqlTextKey × Time))
      → m ≡ keep_all now_of before []
      → add_pairs database one other at ss m ≡ keep_all now_of (before ++ mentions_of pair_of ss) []
  after_pairs ss m before h =
      add_pairs_all ss m
      ∙ ap (keep_all now_of (mentions_of pair_of ss)) h
      ∙ sym (keep_all-append now_of before (mentions_of pair_of ss) [])

abbrev pub sql_mention : SqlSample → List (SqlTextKey × Time)
sql_mention s = mention s.database s.sql_id s.collected_at

abbrev pub text_mention : SqlTextSample → List (SqlTextKey × Time)
text_mention s = mention s.database s.sql_id s.collected_at

add_sql_all :
    (ss : List SqlSample) (texts : Texts) (m : References)
    → (add_sql ss (texts, m)).1 ≡ keep_all now_of (mentions_of sql_mention ss) m
unfolding add_sql keep_all
add_sql_all [] texts m = refl
add_sql_all (s ∷ ss) texts m =
    add_sql_all ss _ (add_reference s.database s.sql_id s.collected_at m)
    ∙ ap (keep_all now_of (mentions_of sql_mention ss))
        (add_reference_all s.database s.sql_id s.collected_at m)
    ∙ sym (keep_all-append now_of (sql_mention s) (mentions_of sql_mention ss) m)

add_sql_texts_all :
    (ss : List SqlTextSample) (texts : Texts) (m : References)
    → (add_sql_texts ss (texts, m)).1 ≡ keep_all now_of (mentions_of text_mention ss) m
unfolding add_sql_texts keep_all
add_sql_texts_all [] texts m = refl
add_sql_texts_all (s ∷ ss) texts m =
    add_sql_texts_all ss _ (add_reference s.database s.sql_id s.collected_at m)
    ∙ ap (keep_all now_of (mentions_of text_mention ss))
        (add_reference_all s.database s.sql_id s.collected_at m)
    ∙ sym (keep_all-append now_of (text_mention s) (mentions_of text_mention ss) m)

-- The mentions of statements in a batch, by the samples that have them.
abbrev statement_mentions : PerformanceSamples → List (SqlTextKey × Time)
statement_mentions p = mentions_of sql_mention p.sql ++ mentions_of text_mention p.sql_texts

abbrev session_mentions : PerformanceSamples → List (SqlTextKey × Time)
session_mentions p =
    statement_mentions p
    ++ mentions_of
        (pair_of (λ s. s.database) (λ s. s.sql_id) (λ s. s.prev_sql_id) (λ s. s.collected_at))
        p.sessions

abbrev blocking_mentions : PerformanceSamples → List (SqlTextKey × Time)
blocking_mentions p =
    session_mentions p
    ++ mentions_of
        (pair_of (λ s. s.database) (λ s. s.sql_id) (λ s. s.blocking_sql_id) (λ s. s.collected_at))
        p.blocking_sessions

-- All mentions of statements in a batch.
abbrev pub all_mentions : PerformanceSamples → List (SqlTextKey × Time)
all_mentions p =
    blocking_mentions p
    ++ mentions_of
        (pair_of (λ s. s.database) (λ s. s.sql_id) (λ s. s.top_level_sql_id) (λ s. s.collected_at))
        p.database_activity

statement_references_all :
    (p : PerformanceSamples)
    → (add_sql_texts p.sql_texts (add_sql p.sql ([], []))).1
      ≡ keep_all now_of (statement_mentions p) []
statement_references_all p =
    add_sql_texts_all p.sql_texts (add_sql p.sql ([], [])).0 (add_sql p.sql ([], [])).1
    ∙ ap (keep_all now_of (mentions_of text_mention p.sql_texts)) (add_sql_all p.sql [] [])
    ∙ sym (
        keep_all-append now_of (mentions_of sql_mention p.sql)
          (mentions_of text_mention p.sql_texts) [])

references_all :
    (p : PerformanceSamples) → (collect_sql_text_updates p).1 ≡ keep_all now_of (all_mentions p) []
unfolding collect_sql_text_updates
references_all p =
    after_pairs (λ s. s.database) (λ s. s.sql_id) (λ s. s.top_level_sql_id) (λ s. s.collected_at)
      p.database_activity _ (blocking_mentions p)
      (after_pairs (λ s. s.database) (λ s. s.sql_id) (λ s. s.blocking_sql_id) (λ s. s.collected_at)
        p.blocking_sessions _ (session_mentions p)
        (after_pairs (λ s. s.database) (λ s. s.sql_id) (λ s. s.prev_sql_id) (λ s. s.collected_at)
          p.sessions _ (statement_mentions p) (statement_references_all p)))

-- Whatever the order of the samples, a batch refers to a statement at the newest time that any sample
-- mentions it; and of each cursor it describes the newest sample, the first of them where several are of
-- one time, and of each plan the newest time.
pub collected_newest :
    (p : PerformanceSamples) (ss : List SqlSample) (k : SqlTextKey) (j : SqlCursorMetadataKey)
    → (lookup k (collect_sql_text_updates p).1 ≡ latest now_of k (all_mentions p))
      × (lookup j (collect_sql_cursor_metadata ss)
          ≡ latest
              (λ s. s.collected_at)
              j
              (entries (λ s. s.collected_at) described_cursor (λ s. s) ss))
      × (lookup j (collect_sql_plan_references ss)
          ≡ latest now_of j (entries now_of referenced_plan (λ s. s.collected_at) ss))
unfolding collect_sql_cursor_metadata collect_sql_plan_references
collected_newest p ss k j = (
  ap (lookup k) (references_all p) ∙ lookup-keep_all_new now_of k (all_mentions p),
  ap (lookup j) (collect_latest_all (λ s. s.collected_at) described_cursor (λ s. s) ss [])
      ∙ lookup-keep_all_new (λ s. s.collected_at) j
          (entries (λ s. s.collected_at) described_cursor (λ s. s) ss),
  ap (lookup j) (collect_latest_all (λ t. t) referenced_plan (λ s. s.collected_at) ss [])
      ∙ lookup-keep_all_new (λ t. t) j (entries now_of referenced_plan (λ s. s.collected_at) ss),
)
