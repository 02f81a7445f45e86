-- ===== src/Config/Scope.antt =====
-- validateHighAvailabilityConfig of collector/config.go against the pattern that its message states.
use harry_performance_scrape.Prelude.{
  ℕ, suc, ◌≤◌, ◌≡◌, ◌≢◌, refl, true, false, none, [], ◌∷◌, arith, ltb, length, All, string_eq, ◌↔◌,
  ◌⊎◌,
}
use harry_performance_scrape.Prelude.Int.{pos, ◌<ℤ◌}
use harry_performance_scrape.Texts.{Text, text_eq}
use harry_performance_scrape.Config.Availability.{
  HighAvailabilityConfig, get_enabled, get_scope, get_retry_interval, get_validation_interval,
}
use harry_performance_scrape.Config.Validate.{scope_valid_from, validate_high_availability_config}

-- The class [a-z0-9] and the class [a-z0-9._-].
abbrev pub IsAlphaNumeric : ℕ → Type 0
IsAlphaNumeric r = (b'a' ≤ r) × (r ≤ b'z') ⊎ (b'0' ≤ r) × (r ≤ b'9')

abbrev pub IsScopeByte : ℕ → Type 0
IsScopeByte r = IsAlphaNumeric r ⊎ ((r ≡ b'.') ⊎ ((r ≡ b'_') ⊎ (r ≡ b'-')))

-- The pattern [a-z0-9][a-z0-9._-]{0,62}.
abbrev pub IsScope : Text → Type 0
IsScope [] = ⊥
IsScope (r ∷ rs) = IsAlphaNumeric r × All IsScopeByte rs × (length rs ≤ 62)

scope_tail : (i : ℕ) (rs : Text) → scope_valid_from (suc i) rs ≡ true → All IsScopeByte rs
unfolding scope_valid_from
scope_tail i [] h = tt
scope_tail i (r ∷ rs) h = (ground arith, scope_tail (suc i) rs (ground arith))

scope_tail_valid : (i : ℕ) (rs : Text) → All IsScopeByte rs → scope_valid_from (suc i) rs ≡ true
unfolding scope_valid_from
scope_tail_valid i [] h = refl
scope_tail_valid i (r ∷ rs) (p, h) = ground (arith, scope_tail_valid (suc i) rs h)

get_scope-ne-nil : (c : HighAvailabilityConfig) → get_scope c ≢ []
unfolding get_scope
get_scope-ne-nil c = ground arith

accepted→IsScope :
    (s : Text) → s ≢ [] → ltb 63 (length s) ≡ false → scope_valid_from 0 s ≡ true → IsScope s
unfolding scope_valid_from
accepted→IsScope [] n l v = n refl
accepted→IsScope (r ∷ rs) n l v = (ground arith, scope_tail 0 rs (ground arith), ground arith)

IsScope→accepted :
    (s : Text) → IsScope s → (ltb 63 (length s) ≡ false) × (scope_valid_from 0 s ≡ true)
unfolding scope_valid_from
IsScope→accepted [] h = absurd h
IsScope→accepted (r ∷ rs) (p, q, l) = (ground arith, ground (arith, scope_tail_valid 0 rs q))

-- With high availability enabled, the section is accepted exactly when the scope matches
-- [a-z0-9][a-z0-9._-]{0,62} and both intervals are positive.
pub validate_high_availability_config_iff :
    (c : HighAvailabilityConfig)
    → get_enabled c ≡ true
    → (validate_high_availability_config c ≡ none) ↔ (
        IsScope (get_scope c)
        × (pos 0 <ℤ get_retry_interval c)
        × (pos 0 <ℤ get_validation_interval c))
unfolding validate_high_availability_config
validate_high_availability_config_iff c on = (
  λ h. (
    accepted→IsScope (get_scope c) (get_scope-ne-nil c) (ground arith) (ground arith),
    ground arith,
    ground arith,
  ),
  λ h. let (short, valid) = IsScope→accepted (get_scope c) h.0 in ground arith,
)
