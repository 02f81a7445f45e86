-- ===== src/Collection/Values.antt =====
-- What parseDataGuardInterval of collector/dataguard.go makes of an interval, as a number.
use harry_performance_scrape.Prelude.{
  ℕ, ◌+◌, ◌-◌, ◌*◌, ◌<◌, ◌≤◌, ◌≡◌, refl, [], ◌∷◌, arith, ap, ◌∙◌,
}
use harry_performance_scrape.Texts.{Text}
use harry_performance_scrape.Samples.Operational.{Float64}
use harry_performance_scrape.Collection.Interval.{Floats, seconds, interval_total, parse_trimmed}
use harry_performance_scrape.Collection.Printed.{
  AreDigits, Clock, IsClock, Sign, minus, plus, unsigned, interval_text, parts_of,
  match_interval-interval_text, interval_text-known,
}

-- The number that digits write.
unfoldable pub number_from : ℕ → Text → ℕ
number_from n [] = n
number_from n (c ∷ s) = number_from (10 * n + (c - 48)) s

abbrev pub number_of : Text → ℕ
number_of s = number_from 0 s

-- A float64 has every natural number below 2^53.
abbrev pub exact_bound : ℕ
exact_bound = 9007199254740992

-- What is relied on of float64: below 2^53, digits are read as their number, and sums and products of
-- whole numbers are exact.
pub record IsExact (f : Floats) : Type 0 where
  pub reads :
      (c : ℕ) (s : Text)
      → AreDigits (c ∷ s)
      → number_of (c ∷ s) < exact_bound
      → (f.parse_float (c ∷ s)).0 ≡ f.of_nat (number_of (c ∷ s))
  pub products :
      (a b : ℕ) → a * b < exact_bound → f.mul (f.of_nat a) (f.of_nat b) ≡ f.of_nat (a * b)
  pub sums : (a b : ℕ) → a + b < exact_bound → f.add (f.of_nat a) (f.of_nat b) ≡ f.of_nat (a + b)

number_of_two : (a b : ℕ) → AreDigits (a ∷ b ∷ []) → number_of (a ∷ b ∷ []) ≤ 99
unfolding number_from
number_of_two a b h = ground arith

-- The days, hours and minutes in seconds.
abbrev pub whole_minutes : Clock → ℕ
whole_minutes c =
    number_of (c.first_day ∷ c.more_days) * 86400
    + number_of (c.hour_tens ∷ c.hour_ones ∷ []) * 3600
    + number_of (c.minute_tens ∷ c.minute_ones ∷ []) * 60

-- The seconds with their fraction, as they are written.
abbrev pub seconds_text : Clock → Text
seconds_text c = c.second_tens ∷ c.second_ones ∷ c.fraction_text

abbrev pub signed : Floats → Sign → Float64 → Float64
signed f minus x = f.negate x
signed f plus x = x
signed f unsigned x = x

module _ (f : Floats) where
  sum_exact :
      (exact : IsExact f) (d h m : ℕ) (x nd nh nm : Float64)
      → d * 86400 + h * 3600 + m * 60 < exact_bound
      → nd ≡ f.of_nat d
      → nh ≡ f.of_nat h
      → nm ≡ f.of_nat m
      → f.add
          (f.add
            (f.add (f.mul nd (f.of_nat 86400)) (f.mul nh (f.of_nat 3600)))
            (f.mul nm (f.of_nat 60)))
          x
        ≡ f.add (f.of_nat (d * 86400 + h * 3600 + m * 60)) x
  sum_exact exact d h m x nd nh nm small days hours minutes =
      let pd = exact.products d 86400 (omega arith) in
      let ph = exact.products h 3600 (omega arith) in
      let pm = exact.products m 60 (omega arith) in
      let two = exact.sums (d * 86400) (h * 3600) (omega arith) in
      let three = exact.sums (d * 86400 + h * 3600) (m * 60) (omega arith) in cc

  total_exact :
      (exact : IsExact f) (c : Clock)
      → IsClock c
      → whole_minutes c < exact_bound
      → interval_total f (parts_of unsigned c)
        ≡ f.add (f.of_nat (whole_minutes c)) (f.parse_float (seconds_text c)).0
  unfolding interval_total
  total_exact exact c h small =
      let hours = number_of_two c.hour_tens c.hour_ones h.hours in
      let minutes = number_of_two c.minute_tens c.minute_ones h.minutes in
      sum_exact exact (number_of (c.first_day ∷ c.more_days))
        (number_of (c.hour_tens ∷ c.hour_ones ∷ []))
        (number_of (c.minute_tens ∷ c.minute_ones ∷ [])) (f.parse_float (seconds_text c)).0
        (f.parse_float (c.first_day ∷ c.more_days)).0
        (f.parse_float (c.hour_tens ∷ c.hour_ones ∷ [])).0
        (f.parse_float (c.minute_tens ∷ c.minute_ones ∷ [])).0 small
        (exact.reads c.first_day c.more_days h.days (omega arith))
        (exact.reads c.hour_tens (c.hour_ones ∷ []) h.hours (omega arith))
        (exact.reads c.minute_tens (c.minute_ones ∷ []) h.minutes (omega arith))

  interval_total-signed :
      (g : Sign) (c : Clock)
      → interval_total f (parts_of g c) ≡ signed f g (interval_total f (parts_of unsigned c))
  unfolding interval_total
  interval_total-signed minus c = refl
  interval_total-signed plus c = refl
  interval_total-signed unsigned c = refl

-- An interval as Oracle writes it, with no white space around it, whose days, hours and minutes
-- come to less than 2^53 seconds, is read as their exact number of seconds (86400 for a day, 3600
-- for an hour, 60 for a minute) plus its seconds with their fraction; all of it is negated where
-- there is a minus sign. The arithmetic on float64 is relied on to be exact for whole numbers below
-- 2^53.
pub parse_trimmed-interval_text :
    (f : Floats) (g : Sign) (c : Clock)
    → IsExact f
    → IsClock c
    → whole_minutes c < exact_bound
    → parse_trimmed f (interval_text g c)
      ≡ seconds (signed f g (f.add (f.of_nat (whole_minutes c)) (f.parse_float (seconds_text c)).0))
unfolding parse_trimmed
parse_trimmed-interval_text f g c exact h small =
    rw (interval_text-known g c h, match_interval-interval_text g c h)
      (ap seconds (interval_total-signed f g c ∙ ap (signed f g) (total_exact f exact c h small)))
