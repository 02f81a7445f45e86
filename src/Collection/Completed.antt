-- ===== src/Collection/Completed.antt =====
-- What applyDatabaseIdentity, applyInstanceMemory and applyTablespaceAllocation of
-- collector/operational.go do with each sample.
use harry_performance_scrape.Prelude.{
  ℕ, suc, ◌≡◌, refl, Option, none, some, List, [], ◌∷◌, map, string_eq, Comparable, ◌==◌,
  if◌then◌else◌, ap, ◌∙◌, count_if, is_some, inl, inr, Bool-cases, Option-cases,
}
use harry_performance_scrape.Prelude.Int.{int_eq}
use harry_performance_scrape.Prelude.Dict.{Dict, lookup, insert, lookup-insert}
use harry_performance_scrape.Collection.Merges.{by_key, update_one, update_samples}

module _ {K : Type 0} {R : Type 0} ⦃c : Comparable K⦄ (key_of : R → K) where
  -- The last row with a key.
  pub last_row : K → List R → Option R
  last_row k [] = none
  last_row k (r ∷ rs) = elim (last_row k rs) [
    | some x ↦ some x
    | none ↦ if key_of r == k then some r else none
  ]

  abbrev else_in : K → Dict K R → Option R → Option R
  else_in k m none = lookup k m
  else_in k m (some r) = some r

  lookup-by_key :
      (k : K) (rs : List R) (m : Dict K R)
      → lookup k (by_key key_of rs m) ≡ else_in k m (last_row k rs)
  unfolding by_key last_row
  lookup-by_key k [] m = refl
  lookup-by_key k (r ∷ rs) m =
      lookup-by_key k rs (insert (key_of r) r m) ∙ elim (Option-cases (last_row k rs)) [
        | inl none_later ↦
            rw (none_later, lookup-insert m (key_of r) r k)
              (elim (Bool-cases (key_of r == k)) [
                | inl same ↦ rw same refl
                | inr other ↦ rw other refl
              ])
        | inr (x, later) ↦ rw later refl
      ]

  lookup-by_key_all : (k : K) (rs : List R) → lookup k (by_key key_of rs []) ≡ last_row k rs
  unfolding lookup
  lookup-by_key_all k rs = lookup-by_key k rs [] ∙ elim (Option-cases (last_row k rs)) [
    | inl missing ↦ rw missing refl
    | inr (r, there) ↦ rw there refl
  ]

module _ {K : Type 0} {R : Type 0} {S : Type 0} ⦃c : Comparable K⦄ (key_of : R → K)
    (sample_key : S → K) (update : R → S → S) where
  abbrev pub completed_by : Option R → S → S
  completed_by none s = s
  completed_by (some r) s = update r s

  -- A sample as the last row with its key completes it, or as it was.
  unfoldable pub completed : List R → S → S
  completed rs s = completed_by (last_row key_of (sample_key s) rs) s

  abbrev pub Updates : List R → List S → List S × ℕ → Type 0
  Updates rs ss result =
      (result.0 ≡ map (completed rs) ss)
      × (result.1 ≡ count_if (λ s. is_some (last_row key_of (sample_key s) rs)) ss)

  update_one_lem :
      (o : Option R) (s : S) (rest : List S × ℕ)
      → update_one update o s rest
        ≡ (completed_by o s ∷ rest.0, if is_some o then suc rest.1 else rest.1)
  unfolding update_one
  update_one_lem none s rest = refl
  update_one_lem (some r) s rest = refl

  pub update_samples-Updates :
      (rs : List R) (ss : List S)
      → Updates rs ss (update_samples sample_key update (by_key key_of rs []) ss)
  unfolding update_samples completed count_if
  update_samples-Updates rs [] = (refl, refl)
  update_samples-Updates rs (s ∷ ss) =
      let m : Dict K R = by_key key_of rs [] in
      let o : Option R = last_row key_of (sample_key s) rs in
      let (same, counted) = update_samples-Updates rs ss in
      let one : update_one update (lookup (sample_key s) m) s
            (update_samples sample_key update m ss)
          ≡ (
            completed_by o s ∷ map (completed rs) ss,
            if is_some o
                then suc (count_if (λ s. is_some (last_row key_of (sample_key s) rs)) ss)
                else count_if (λ s. is_some (last_row key_of (sample_key s) rs)) ss,
          ) =
        ap (λ t. update_one update t s (update_samples sample_key update m ss))
          (lookup-by_key_all key_of (sample_key s) rs)
        ∙ update_one_lem o s (update_samples sample_key update m ss)
        ∙ rw (same, counted) refl in
      (ap (λ t. t.0) one, ap (λ t. t.1) one)
