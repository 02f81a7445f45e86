-- ===== src/Clock.antt =====
-- The parts of Go's `time` that the program uses. An instant is a number of nanoseconds since the
-- start of year 1, so that 0 is the zero `time.Time`; a duration is an int64 of nanoseconds.
use harry_performance_scrape.Prelude.{
  ℕ, ◌+◌, ◌-◌, ◌<◌, ◌≤◌, ◌≡◌, Bool, arith, ltb, eqb, if◌then◌else◌,
}
use harry_performance_scrape.Prelude.Int.{
  ℤ, pos, negsuc, pos_part, neg_part, sub_ℕ, half64, InInt64,
}

abbrev pub Time : Type 0
Time = ℕ

abbrev pub Duration : Type 0
Duration = ℤ

abbrev pub zero_time : Time
zero_time = 0

abbrev pub is_zero : Time → Bool
is_zero t = eqb t 0

abbrev pub before : Time → Time → Bool
before a b = ltb a b

abbrev pub after : Time → Time → Bool
after a b = ltb b a

abbrev pub second : ℕ
second = 1000000000

abbrev pub minute : ℕ
minute = 60000000000

abbrev pub hour : ℕ
hour = 3600000000000

-- `Sub` is cut off at the ends of int64.
saturate : ℤ → Duration
saturate (pos n) = if ltb n half64 then pos n else pos (half64 - 1)
saturate (negsuc n) = if ltb n half64 then negsuc n else negsuc (half64 - 1)

unfoldable pub time_sub : Time → Time → Duration
unfolding saturate
time_sub a b = saturate (sub_ℕ a b)

-- `Add`; an instant before year 1 is not represented.
unfoldable pub time_add : Time → Duration → Time
time_add t d = t + pos_part d - neg_part d

pub time_sub-InInt64 : (a b : Time) → InInt64 (time_sub a b)
unfolding time_sub
time_sub-InInt64 a b = ground arith

pub time_sub_exact : (a b : Time) → b ≤ a → a - b < half64 → time_sub a b ≡ pos (a - b)
unfolding time_sub
time_sub_exact a b h k = ground arith
