-- ===== src/Sink/Texts/Newest.antt =====
-- Entries by key and time, as the loops of postgresql/postgresql.go keep them.
use harry_performance_scrape.Prelude.{
  ◌≡◌, refl, ◌∙◌, ap, sym, true, false, Option, none, some, List, [], ◌∷◌, ◌++◌, Comparable, ◌==◌,
  if◌then◌else◌, arith, inl, inr, Bool-cases,
}
use harry_performance_scrape.Prelude.Dict.{Dict, lookup, lookup-insert}
use harry_performance_scrape.Clock.{Time, after}
use harry_performance_scrape.Sink.Texts.{text_key_eq, cursor_key_eq, keep_later, keep_latest}

module _ {V : Type 0} (time_of : V → Time) where
  -- The newer of two, and the first where they are of one time.
  abbrev pub newer : Option V → Option V → Option V
  newer none b = b
  newer (some v) none = some v
  newer (some v) (some w) = if after (time_of w) (time_of v) then some w else some v

  pub newer-none : (a : Option V) → newer a none ≡ a
  newer-none none = refl
  newer-none (some v) = refl

  newer_assoc : (x y z : Option V) → newer (newer x y) z ≡ newer x (newer y z)
  newer_assoc none y z = refl
  newer_assoc (some v) none z = refl
  newer_assoc (some v) (some w) none = newer-none (newer (some v) (some w))
  newer_assoc (some v) (some w) (some u) = ground arith

module _ {K : Type 0} {V : Type 0} ⦃c : Comparable K⦄ (time_of : V → Time) where
  abbrev pub if_key : K → K × V → Option V
  if_key j e = if e.0 == j then some e.1 else none

  -- The newest entry of a key, and the first of them where several are.
  unfoldable pub latest : K → List (K × V) → Option V
  latest j [] = none
  latest j (e ∷ es) = newer time_of (if e.0 == j then some e.1 else none) (latest j es)

  kept_same :
      (o : Option V) (k : K) (v : V) (m : Dict K V) (j : K)
      → (k == j) ≡ true
      → lookup j m ≡ o
      → lookup j (keep_later time_of o k v m) ≡ newer time_of o (some v)
  unfolding keep_later
  kept_same none k v m j same h = lookup-insert m k v j ∙ rw same refl
  kept_same (some p) k v m j same h = elim (Bool-cases (after (time_of v) (time_of p))) [
    | inl later ↦ rw later (lookup-insert m k v j ∙ rw same refl)
    | inr older ↦ rw older h
  ]

  kept_other :
      (o : Option V) (k : K) (v : V) (m : Dict K V) (j : K)
      → (k == j) ≡ false
      → lookup j (keep_later time_of o k v m) ≡ lookup j m
  unfolding keep_later
  kept_other none k v m j other = lookup-insert m k v j ∙ rw other refl
  kept_other (some p) k v m j other = elim (Bool-cases (after (time_of v) (time_of p))) [
    | inl later ↦ rw later (lookup-insert m k v j ∙ rw other refl)
    | inr older ↦ rw older refl
  ]

  lookup-keep_latest :
      (k : K) (v : V) (m : Dict K V) (j : K)
      → lookup j (keep_latest time_of k v m)
        ≡ newer time_of (lookup j m) (if k == j then some v else none)
  lookup-keep_latest k v m j = elim (Bool-cases (k == j)) [
    | inl same ↦
        let known : lookup k m ≡ lookup j m = ap (λ i. lookup i m) ((c.same_iff k j).0 same) in
        ap (λ o. lookup j (keep_later time_of o k v m)) known
        ∙ kept_same (lookup j m) k v m j same refl
        ∙ rw same refl
    | inr other ↦
        kept_other (lookup k m) k v m j other
        ∙ sym (newer-none time_of (lookup j m))
        ∙ rw other refl
  ]

  unfoldable pub keep_all : List (K × V) → Dict K V → Dict K V
  keep_all [] m = m
  keep_all (e ∷ es) m = keep_all es (keep_latest time_of e.0 e.1 m)

  pub keep_all-append :
      (xs ys : List (K × V)) (m : Dict K V) → keep_all (xs ++ ys) m ≡ keep_all ys (keep_all xs m)
  unfolding keep_all
  keep_all-append [] ys m = refl
  keep_all-append (e ∷ xs) ys m = keep_all-append xs ys (keep_latest time_of e.0 e.1 m)

  lookup-keep_all :
      (j : K) (es : List (K × V)) (m : Dict K V)
      → lookup j (keep_all es m) ≡ newer time_of (lookup j m) (latest j es)
  unfolding keep_all latest
  lookup-keep_all j [] m = sym (newer-none time_of (lookup j m))
  lookup-keep_all j (e ∷ es) m =
      lookup-keep_all j es (keep_latest time_of e.0 e.1 m)
      ∙ ap (λ o. newer time_of o (latest j es)) (lookup-keep_latest e.0 e.1 m j)
      ∙ newer_assoc time_of (lookup j m) (if e.0 == j then some e.1 else none) (latest j es)

  pub lookup-keep_all_new : (j : K) (es : List (K × V)) → lookup j (keep_all es []) ≡ latest j es
  unfolding lookup
  lookup-keep_all_new j es = lookup-keep_all j es []
