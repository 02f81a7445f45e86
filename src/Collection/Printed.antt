-- ===== src/Collection/Printed.antt =====
-- The intervals that parseDataGuardInterval of collector/dataguard.go reads.
use harry_performance_scrape.Prelude.{
  ℕ, ◌≡◌, refl, Bool, true, false, ◌&&◌, ◌||◌, some, [], ◌∷◌, ◌++◌, map, eqb, arith, ap, ◌∙◌, All,
  ◌==◌,
}
use harry_performance_scrape.Texts.{Text, text, text_eq, text_eqb, to_lower}
use harry_performance_scrape.Collection.Interval.{
  is_digit, digits, two_digits, literal, fraction, sign, Matched, match_clock, match_interval,
  some_digits, ◌>>=◌, equal_fold,
}

abbrev pub AreDigits : Text → Type 0
AreDigits s = All (λ c. is_digit c ≡ true) s

digits-append :
    (run : Text) (c : ℕ) (rest : Text)
    → AreDigits run
    → is_digit c ≡ false
    → digits (run ++ c ∷ rest) ≡ (run, c ∷ rest)
unfolding digits
digits-append [] c rest h k = rw k refl
digits-append (x ∷ run) c rest (d, h) k = rw (digits-append run c rest h k, d) refl

digits_whole : (run : Text) → AreDigits run → digits run ≡ (run, [])
unfolding digits
digits_whole [] h = refl
digits_whole (x ∷ run) (d, h) = rw (digits_whole run h, d) refl

-- A fraction of the seconds, or nothing.
abbrev pub IsFraction : Text → Type 0
IsFraction [] = Unit
IsFraction (b ∷ []) = ⊥
IsFraction (b ∷ c ∷ cs) = (eqb b b'.' ≡ true) × AreDigits (c ∷ cs)

fraction_lem : (s : Text) → IsFraction s → fraction s ≡ some s
unfolding fraction
fraction_lem [] h = refl
fraction_lem (b ∷ []) h = absurd h
fraction_lem (b ∷ c ∷ cs) (dot, h) = rw (digits_whole (c ∷ cs) h, dot) refl

-- The digits of an interval: days, hours, minutes and seconds, and the fraction of the seconds.
pub record Clock : Type 0 where
  pub first_day : ℕ
  pub more_days : Text
  pub hour_tens : ℕ
  pub hour_ones : ℕ
  pub minute_tens : ℕ
  pub minute_ones : ℕ
  pub second_tens : ℕ
  pub second_ones : ℕ
  pub fraction_text : Text

pub record IsClock (c : Clock) : Type 0 where
  pub days : AreDigits (c.first_day ∷ c.more_days)
  pub hours : AreDigits (c.hour_tens ∷ c.hour_ones ∷ [])
  pub minutes : AreDigits (c.minute_tens ∷ c.minute_ones ∷ [])
  pub whole_seconds : AreDigits (c.second_tens ∷ c.second_ones ∷ [])
  pub fraction_part : IsFraction c.fraction_text

abbrev clock_tail : Clock → Text
clock_tail c =
    c.hour_tens ∷ c.hour_ones ∷ b':' ∷ c.minute_tens ∷ c.minute_ones ∷ b':' ∷ c.second_tens
    ∷ c.second_ones ∷ c.fraction_text

abbrev clock_text : Clock → Text
clock_text c = b' ' ∷ clock_tail c

-- As Oracle writes it: a minus sign where it is negative, and a plus sign or none where it is not.
pub data Sign : Type 0 where
  minus plus unsigned : Sign

abbrev pub sign_text : Sign → Text
sign_text minus = b'-' ∷ []
sign_text plus = b'+' ∷ []
sign_text unsigned = []

abbrev pub is_minus : Sign → Bool
is_minus minus = true
is_minus plus = false
is_minus unsigned = false

unfoldable pub interval_text : Sign → Clock → Text
interval_text g c = sign_text g ++ (c.first_day ∷ (c.more_days ++ clock_text c))

abbrev pub parts_of : Sign → Clock → Matched
parts_of g c = record {
  negative = is_minus g;
  days = c.first_day ∷ c.more_days;
  hours = c.hour_tens ∷ c.hour_ones ∷ [];
  minutes = c.minute_tens ∷ c.minute_ones ∷ [];
  seconds = c.second_tens ∷ c.second_ones ∷ c.fraction_text;
}

match_clock_lem :
    (b : Bool) (c : Clock)
    → IsClock c
    → match_clock b (c.first_day ∷ c.more_days) (clock_text c)
      ≡ some (record (parts_of unsigned c) { negative = b })
unfolding match_clock two_digits literal
match_clock_lem b c h =
    rw
      (
        h.hours.0,
        h.hours.1.0,
        h.minutes.0,
        h.minutes.1.0,
        h.whole_seconds.0,
        h.whole_seconds.1.0,
        fraction_lem c.fraction_text h.fraction_part,
      )
      refl

sign_lem :
    (g : Sign) (c : ℕ) (s : Text)
    → is_digit c ≡ true
    → sign (sign_text g ++ (c ∷ s)) ≡ (is_minus g, c ∷ s)
unfolding sign
sign_lem minus c s h = refl
sign_lem plus c s h = refl
sign_lem unsigned c s h = ground arith

-- An interval is matched, with the parts that it is written from.
pub match_interval-interval_text :
    (g : Sign) (c : Clock) → IsClock c → match_interval (interval_text g c) ≡ some (parts_of g c)
unfolding match_interval interval_text
match_interval-interval_text g c h =
    ap (λ r. some_digits (digits r.1) >>= λ t. match_clock r.0 t.0 t.1)
      (sign_lem g c.first_day (c.more_days ++ clock_text c) h.days.0)
    ∙ ap (λ r. some_digits r >>= λ t. match_clock (is_minus g) t.0 t.1)
        (digits-append (c.first_day ∷ c.more_days) b' ' (clock_tail c) h.days refl)
    ∙ match_clock_lem (is_minus g) c h

digit-ne-letter : (c : ℕ) → is_digit c ≡ true → eqb (to_lower c) b'u' ≡ false
unfolding to_lower
digit-ne-letter c h = ground arith

pub interval_text-known :
    (g : Sign) (c : Clock)
    → IsClock c
    → interval_text g c == [] || equal_fold (interval_text g c) (text "UNKNOWN") ≡ false
unfolding interval_text to_lower
interval_text-known minus c h = refl
interval_text-known plus c h = refl
interval_text-known unsigned c h =
    ap (λ b. b && text_eqb (map to_lower (c.more_days ++ clock_text c)) (text "nknown"))
      (digit-ne-letter c.first_day h.days.0)
