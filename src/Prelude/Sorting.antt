-- ===== src/Prelude/Sorting.antt =====
-- Sorting by a comparison. Where no two elements compare equal, every sorting routine gives this list.
use harry_performance_scrape.Prelude.{
  ℕ, zero, suc, ◌≡◌, refl, inl, inr, Bool, true, false, List, [], ◌∷◌, if◌then◌else◌, arith, All,
  Bool-cases, count_if, take, drop, ◌∙◌,
}

module _ {ℓ} {A : Type ℓ} (before : A → A → Bool) where
  unfoldable pub insert_sorted : A → List A → List A
  insert_sorted a [] = a ∷ []
  insert_sorted a (b ∷ bs) = if before a b then a ∷ b ∷ bs else b ∷ insert_sorted a bs

  unfoldable pub sorted : List A → List A
  unfolding insert_sorted
  sorted [] = []
  sorted (a ∷ as_) = insert_sorted a (sorted as_)

  abbrev pub IsFirst : A → List A → Type 0
  IsFirst a bs = All (λ b. before a b ≡ true) bs

  abbrev pub IsSorted : List A → Type 0
  IsSorted [] = Unit
  IsSorted (a ∷ bs) = IsFirst a bs × IsSorted bs

  pub count_if-insert_sorted :
      (p : A → Bool) (a : A) (bs : List A) → count_if p (insert_sorted a bs) ≡ count_if p (a ∷ bs)
  unfolding insert_sorted count_if
  count_if-insert_sorted p a [] = refl
  count_if-insert_sorted p a (b ∷ bs) = ground (arith, count_if-insert_sorted p a bs)

  -- Nothing is lost or doubled.
  pub count_if-sorted : (p : A → Bool) (bs : List A) → count_if p (sorted bs) ≡ count_if p bs
  unfolding sorted count_if
  count_if-sorted p [] = refl
  count_if-sorted p (b ∷ bs) =
      count_if-insert_sorted p b (sorted bs) ∙ ground (arith, count_if-sorted p bs)

  module _ (total : (a b : A) → before a b ≡ false → before b a ≡ true)
      (trans : (a b c : A) → before a b ≡ true → before b c ≡ true → before a c ≡ true) where
    weaken : (a b : A) (cs : List A) → before a b ≡ true → IsFirst b cs → IsFirst a cs
    weaken a b [] h f = tt
    weaken a b (c ∷ cs) h (f, fs) = (trans a b c h f, weaken a b cs h fs)

    IsFirst-insert_sorted :
        (a b : A) (cs : List A) → before b a ≡ true → IsFirst b cs → IsFirst b (insert_sorted a cs)
    unfolding insert_sorted
    IsFirst-insert_sorted a b [] h f = (h, tt)
    IsFirst-insert_sorted a b (c ∷ cs) h (f, fs) = elim (Bool-cases (before a c)) [
      | inl now ↦ rw now (h, (f, fs))
      | inr later ↦ rw later (f, IsFirst-insert_sorted a b cs h fs)
    ]

    insert_sorted-IsSorted : (a : A) (bs : List A) → IsSorted bs → IsSorted (insert_sorted a bs)
    unfolding insert_sorted
    insert_sorted-IsSorted a [] s = (tt, tt)
    insert_sorted-IsSorted a (b ∷ bs) (f, s) = elim (Bool-cases (before a b)) [
      | inl now ↦ rw now ((now, weaken a b bs now f), (f, s))
      | inr later ↦
          rw later (IsFirst-insert_sorted a b bs (total a b later) f, insert_sorted-IsSorted a bs s)
    ]

    pub sorted-IsSorted : (bs : List A) → IsSorted (sorted bs)
    unfolding sorted
    sorted-IsSorted [] = tt
    sorted-IsSorted (b ∷ bs) = insert_sorted-IsSorted b (sorted bs) (sorted-IsSorted bs)

  IsFirst-drop : (a : A) (n : ℕ) (bs : List A) → IsFirst a bs → IsFirst a (drop n bs)
  IsFirst-drop a zero bs f = f
  IsFirst-drop a (suc n) [] f = tt
  IsFirst-drop a (suc n) (b ∷ bs) (_, fs) = IsFirst-drop a n bs fs

  -- What is taken from a sorted list comes before all that is left.
  pub take-before-drop :
      (n : ℕ) (bs : List A) → IsSorted bs → All (λ a. IsFirst a (drop n bs)) (take n bs)
  take-before-drop zero bs s = tt
  take-before-drop (suc n) [] s = tt
  take-before-drop (suc n) (b ∷ bs) (f, s) = (IsFirst-drop b n bs f, take-before-drop n bs s)
