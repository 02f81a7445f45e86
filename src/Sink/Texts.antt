-- ===== src/Sink/Texts.antt =====
-- The SQL texts, cursors and plans of a batch, as postgresql/postgresql.go gathers them by key before
-- they are written: collectSQLTextUpdates, collectSQLCursorMetadata and collectSQLPlanReferences.
pub mod Newest
pub mod Mentions
use harry_performance_scrape.Prelude.{
  ◌↔◌, ◌≡◌, Bool, true, false, not, ◌&&◌, ◌||◌, Option, none, some, List, [], ◌∷◌, String,
  string_eq, ◌==◌, Comparable, if◌then◌else◌, arith,
}
use harry_performance_scrape.Prelude.Int.{ℤ, pos, leb_ℤ, int_eq}
use harry_performance_scrape.Prelude.Dict.{Dict, lookup, insert}
use harry_performance_scrape.Clock.{Time, is_zero, before, after}
use harry_performance_scrape.Texts.{text, text_eq, trim_space}
use harry_performance_scrape.Samples.Performance.{
  SqlSample, SqlTextSample, SessionSample, BlockingSessionSample, DatabaseActivitySample,
  PerformanceSamples,
}

pub record SqlTextKey : Type 0 where
  pub database : String
  pub sql_id : String

abbrev pub text_key_same : SqlTextKey → SqlTextKey → Bool
text_key_same a b = a.database == b.database && a.sql_id == b.sql_id

pub text_key_iff : (a b : SqlTextKey) → (text_key_same a b ≡ true) ↔ (a ≡ b)
text_key_iff a b =
    ground (arith, string_eq.same_iff a.database b.database, string_eq.same_iff a.sql_id b.sql_id)

instance abbrev pub text_key_eq : Comparable SqlTextKey
text_key_eq = record { same = text_key_same; same_iff = text_key_iff }

pub record SqlTextRecord : Type 0 where
  pub full_text : String
  pub first_seen : Time
  pub last_seen : Time

-- The fields are also those of sqlPlanReferenceKey.
pub record SqlCursorMetadataKey : Type 0 where
  pub database : String
  pub inst_id : ℤ
  pub sql_id : String
  pub child_number : ℤ
  pub plan_hash_value : ℤ

abbrev pub cursor_key_same : SqlCursorMetadataKey → SqlCursorMetadataKey → Bool
cursor_key_same a b =
    a.database == b.database
    && a.inst_id == b.inst_id
    && a.sql_id == b.sql_id
    && a.child_number == b.child_number
    && a.plan_hash_value == b.plan_hash_value

pub cursor_key_iff : (a b : SqlCursorMetadataKey) → (cursor_key_same a b ≡ true) ↔ (a ≡ b)
cursor_key_iff a b = ground (
  arith,
  string_eq.same_iff a.database b.database,
  int_eq.same_iff a.inst_id b.inst_id,
  string_eq.same_iff a.sql_id b.sql_id,
  int_eq.same_iff a.child_number b.child_number,
  int_eq.same_iff a.plan_hash_value b.plan_hash_value,
)

instance abbrev pub cursor_key_eq : Comparable SqlCursorMetadataKey
cursor_key_eq = record { same = cursor_key_same; same_iff = cursor_key_iff }

-- `if previous, ok := m[key]; !ok || later { m[key] = value }`
module _ {K : Type 0} {V : Type 0} ⦃c : Comparable K⦄ (time_of : V → Time) where
  unfoldable pub keep_later : Option V → K → V → Dict K V → Dict K V
  keep_later none k v m = insert k v m
  keep_later (some previous) k v m =
      if after (time_of v) (time_of previous) then insert k v m else m

  abbrev pub keep_latest : K → V → Dict K V → Dict K V
  keep_latest k v m = keep_later (lookup k m) k v m

abbrev pub is_blank : String → Bool
is_blank s = trim_space (text s) == []

abbrev pub References : Type 0
References = Dict SqlTextKey Time

unfoldable pub add_reference : String → String → Time → References → References
unfolding keep_later
add_reference database sql_id seen_at m =
    if is_blank database || is_blank sql_id || is_zero seen_at
    then m
    else keep_latest (λ t. t) (record { database = database; sql_id = sql_id }) seen_at m

unfoldable pub add_optional_reference : String → Option String → Time → References → References
unfolding add_reference
add_optional_reference database none seen_at m = m
add_optional_reference database (some sql_id) seen_at m = add_reference database sql_id seen_at m

-- The record of a text that is seen again.
unfoldable pub seen_again : String → Time → SqlTextRecord → SqlTextRecord
seen_again full_text at r =
    let r' = if before at r.first_seen then record r { first_seen = at } else r in
    if before at r'.last_seen then r' else record r' { full_text = full_text; last_seen = at }

abbrev pub Texts : Type 0
Texts = Dict SqlTextKey SqlTextRecord

unfoldable pub add_text : Option SqlTextRecord → SqlTextKey → String → Time → Texts → Texts
unfolding seen_again
add_text none k full_text at m =
    insert k (record { full_text = full_text; first_seen = at; last_seen = at }) m
add_text (some r) k full_text at m = insert k (seen_again full_text at r) m

abbrev pub add_optional_text : Option String → SqlTextKey → Time → Texts → Texts
add_optional_text none k at m = m
add_optional_text (some full_text) k at m = add_text (lookup k m) k full_text at m

-- The loops.
unfoldable pub add_sql : List SqlSample → Texts × References → Texts × References
unfolding add_reference add_text
add_sql [] u = u
add_sql (s ∷ ss) (texts, references) = add_sql ss (
  add_optional_text s.sql_full_text (record { database = s.database; sql_id = s.sql_id })
      s.collected_at texts,
  add_reference s.database s.sql_id s.collected_at references,
)

unfoldable pub add_sql_texts : List SqlTextSample → Texts × References → Texts × References
unfolding add_reference add_text
add_sql_texts [] u = u
add_sql_texts (s ∷ ss) (texts, references) =
    let k : SqlTextKey = record { database = s.database; sql_id = s.sql_id } in
    add_sql_texts ss (
      add_text (lookup k texts) k s.sql_full_text s.collected_at texts,
      add_reference s.database s.sql_id s.collected_at references,
    )

-- The loops that add two optional references for each sample.
module _ {A : Type 0} (database : A → String) (one other : A → Option String) (at : A → Time) where
  unfoldable pub add_pairs : List A → References → References
  unfolding add_optional_reference
  add_pairs [] m = m
  add_pairs (s ∷ ss) m = add_pairs ss (
      add_optional_reference (database s) (other s) (at s)
        (add_optional_reference (database s) (one s) (at s) m))

unfoldable pub collect_sql_text_updates : PerformanceSamples → Texts × References
unfolding add_sql add_sql_texts add_pairs
collect_sql_text_updates p =
    let (texts, references) = add_sql_texts p.sql_texts (add_sql p.sql ([], [])) in
    (
      texts,
      add_pairs (λ s. s.database) (λ s. s.sql_id) (λ s. s.top_level_sql_id) (λ s. s.collected_at)
          p.database_activity
          (add_pairs (λ s. s.database) (λ s. s.sql_id) (λ s. s.blocking_sql_id)
            (λ s. s.collected_at) p.blocking_sessions
            (add_pairs (λ s. s.database) (λ s. s.sql_id) (λ s. s.prev_sql_id) (λ s. s.collected_at)
              p.sessions references)),
    )

-- The key of a sample that has a cursor and a plan.
abbrev pub cursor_key : SqlSample → ℤ → ℤ → SqlCursorMetadataKey
cursor_key s child plan = record {
  database = s.database;
  inst_id = s.inst_id;
  sql_id = s.sql_id;
  child_number = child;
  plan_hash_value = plan;
}

abbrev pub described_cursor : SqlSample → Option SqlCursorMetadataKey
described_cursor s =
    if is_blank s.database || is_blank s.sql_id || is_zero s.collected_at
    then none
    else elim s.child_number [
      | none ↦ none
      | some child ↦ elim s.plan_hash_value [
        | none ↦ none
        | some plan ↦ some (cursor_key s child plan)
      ]
    ]

abbrev pub referenced_plan : SqlSample → Option SqlCursorMetadataKey
referenced_plan s = elim s.child_number [
  | none ↦ none
  | some child ↦ elim s.plan_hash_value [
    | none ↦ none
    | some plan ↦ if leb_ℤ plan (pos 0) then none else some (cursor_key s child plan)
  ]
]

-- The loop that collectSQLCursorMetadata and collectSQLPlanReferences share.
module _ {V : Type 0} (time_of : V → Time) (key_of : SqlSample → Option SqlCursorMetadataKey)
    (value_of : SqlSample → V) where
  abbrev pub keep_known :
      Option SqlCursorMetadataKey → V → Dict SqlCursorMetadataKey V → Dict SqlCursorMetadataKey V
  keep_known none v m = m
  keep_known (some k) v m = keep_latest time_of k v m

  unfoldable pub collect_latest :
      List SqlSample → Dict SqlCursorMetadataKey V → Dict SqlCursorMetadataKey V
  unfolding keep_later
  collect_latest [] m = m
  collect_latest (s ∷ ss) m = collect_latest ss (keep_known (key_of s) (value_of s) m)

unfoldable pub collect_sql_cursor_metadata : List SqlSample → Dict SqlCursorMetadataKey SqlSample
unfolding collect_latest
collect_sql_cursor_metadata ss =
    collect_latest (λ s. s.collected_at) described_cursor (λ s. s) ss []

unfoldable pub collect_sql_plan_references : List SqlSample → Dict SqlCursorMetadataKey Time
unfolding collect_latest
collect_sql_plan_references ss = collect_latest (λ t. t) referenced_plan (λ s. s.collected_at) ss []
