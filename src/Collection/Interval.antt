-- ===== src/Collection/Interval.antt =====
-- parseDataGuardInterval of collector/dataguard.go, the pattern of its regular expression included. What
-- it takes from Go's packages on float64 is an argument.
use harry_performance_scrape.Prelude.{
  ℕ, Bool, true, false, ◌&&◌, ◌||◌, Option, none, some, [], ◌∷◌, ◌++◌, map, if◌then◌else◌, leb, eqb,
  ◌==◌,
}
use harry_performance_scrape.Texts.{Text, text, text_eq, to_lower, trim_space}
use harry_performance_scrape.Errors.{Error, wrap_error}
use harry_performance_scrape.Samples.Operational.{Float64}

-- strconv.ParseFloat, `*`, `+` and the unary `-` on float64, the constants of the source, and fmt's %q.
pub record Floats : Type 0 where
  pub parse_float : Text → Float64 × Option Error
  pub mul : Float64 → Float64 → Float64
  pub add : Float64 → Float64 → Float64
  pub negate : Float64 → Float64
  pub of_nat : ℕ → Float64
  pub quoted : Text → Text

abbrev pub is_digit : ℕ → Bool
is_digit c = leb b'0' c && leb c b'9'

-- `[0-9]+`: the longest run, and what follows it.
unfoldable pub digits : Text → Text × Text
digits [] = ([], [])
digits (c ∷ s) = let (run, rest) = digits s in if is_digit c then (c ∷ run, rest) else ([], c ∷ s)

-- `[0-9]{2}`
unfoldable pub two_digits : Text → Option (Text × Text)
two_digits (a ∷ b ∷ s) = if is_digit a && is_digit b then some (a ∷ b ∷ [], s) else none
two_digits _ = none

-- A literal byte of the pattern.
unfoldable pub literal : ℕ → Text → Option Text
literal c [] = none
literal c (b ∷ s) = if eqb b c then some s else none

-- A run of digits that takes a digit and leaves nothing.
abbrev pub whole_run : Text → Text × Text → Option Text
whole_run s ([], rest) = none
whole_run s (c ∷ cs, []) = some s
whole_run s (c ∷ cs, x ∷ xs) = none

-- `(?:\.[0-9]+)?$`, after the seconds' two digits.
unfoldable pub fraction : Text → Option Text
unfolding digits
fraction [] = some []
fraction (b ∷ s) = if eqb b b'.' then whole_run (b ∷ s) (digits s) else none

-- `([+-]?)`
unfoldable pub sign : Text → Bool × Text
sign [] = (false, [])
sign (b ∷ s) = if eqb b b'-' then (true, s) else if eqb b b'+' then (false, s) else (false, b ∷ s)

pub record Matched : Type 0 where
  pub negative : Bool
  pub days : Text
  pub hours : Text
  pub minutes : Text
  pub seconds : Text

infixl 5 ◌>>=◌
abbrev pub ◌>>=◌ {ℓ κ} : {A : Type ℓ} {B : Type κ} → Option A → (A → Option B) → Option B
none >>= f = none
some a >>= f = f a

-- `[0-9]+` must take a digit.
abbrev pub some_digits : Text × Text → Option (Text × Text)
some_digits ([], rest) = none
some_digits (c ∷ run, rest) = some (c ∷ run, rest)

-- The part behind the days.
unfoldable pub match_clock : Bool → Text → Text → Option Matched
unfolding two_digits literal fraction
match_clock minus days s1 = do
  s2 ← literal b' ' s1
  (hours, s3) ← two_digits s2
  s4 ← literal b':' s3
  (minutes, s5) ← two_digits s4
  s6 ← literal b':' s5
  (whole, s7) ← two_digits s6
  rest ← fraction s7
  some (record {
    negative = minus;
    days = days;
    hours = hours;
    minutes = minutes;
    seconds = whole ++ rest;
  })

-- dataGuardIntervalPattern
unfoldable pub match_interval : Text → Option Matched
unfolding digits sign match_clock
match_interval s = do (days, s1) ← some_digits (digits (sign s).1); match_clock (sign s).0 days s1

-- `strings.EqualFold`, on ASCII.
abbrev pub equal_fold : Text → Text → Bool
equal_fold s t = map to_lower s == map to_lower t

module _ (f : Floats) where
  -- Errors of ParseFloat are ignored here, as its value is used.
  unfoldable pub interval_total : Matched → Float64
  interval_total m =
      let number = λ (s : Text). (f.parse_float s).0 in
      let total =
        f.add
          (f.add
            (f.add (f.mul (number m.days) (f.of_nat 86400))
              (f.mul (number m.hours) (f.of_nat 3600)))
            (f.mul (number m.minutes) (f.of_nat 60)))
          (number m.seconds) in
      if m.negative then f.negate total else total

  -- The seconds, or nothing for an unknown interval, or the error.
  pub data Interval : Type 0 where
    seconds : Float64 → Interval
    unknown : Interval
    malformed : Error → Interval

  unfoldable pub parse_trimmed : Text → Interval
  unfolding match_interval interval_total
  parse_trimmed value =
      if value == [] || equal_fold value (text "UNKNOWN")
      then unknown
      else elim (match_interval value) [
        | some m ↦ seconds (interval_total m)
        | none ↦
            let (v, err) = f.parse_float value in
            elim err [
              | none ↦ seconds v
              | some e ↦
                  malformed (
                    wrap_error (text "parse Data Guard interval " ++ f.quoted value ++ text ": ") e)
            ]
      ]

  unfoldable pub parse_data_guard_interval : Text → Interval
  unfolding parse_trimmed
  parse_data_guard_interval value = parse_trimmed (trim_space value)
