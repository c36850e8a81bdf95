-- ===== src/Clock/Fields.antt =====
-- The text of appendTime in server/mqtt/server.go, read back.
use kratos_transport_rpc.Prelude.{
  ℕ, ◌+◌, ◌-◌, ◌*◌, ◌/◌, ◌%◌, ◌<◌, ◌≡◌, refl, [], ◌++◌, Bytes, length, arith,
}
use kratos_transport_rpc.Clock.{Time, at, digit, append_time}

-- a time whose year has at most four digits, with its clock in range
pub record IsPrintable (t : Time) : Type 0 where
  pub year_fits : t.year < 10000
  pub day_fits : t.day < 100
  pub hour_fits : t.hour < 24
  pub minute_fits : t.minute < 60
  pub second_fits : t.second < 60

-- the number whose two digits stand at i
abbrev pub two_at : ℕ → Bytes → ℕ
two_at i s = (at i s - b'0') * 10 + (at (i + 1) s - b'0')

two_digits : (n : ℕ) → n < 100 → (digit (n / 10) - b'0') * 10 + (digit (n % 10) - b'0') ≡ n
unfolding digit
two_digits n h = omega arith

four_digits :
    (n : ℕ)
    → n < 10000
    → ((digit (n / 1000) - b'0') * 10 + (digit (n / 100 % 10) - b'0')) * 100
        + ((digit (n / 10 % 10) - b'0') * 10 + (digit (n % 10) - b'0'))
      ≡ n
unfolding digit
four_digits n h = omega arith

-- appendTime appends 29 bytes, from which the day, the year, the hour, the minute and the second
-- can be read back at their places in TimeFormat, for a year below 10000, a day below 100 and a
-- clock in range.
pub append_time_lem :
    (b : Bytes) (t : Time)
    → IsPrintable t
    → (text : Bytes) × (append_time b t ≡ b ++ text)
      × (length text ≡ 29)
      × (two_at 5 text ≡ t.day)
      × (two_at 12 text * 100 + two_at 14 text ≡ t.year)
      × (two_at 17 text ≡ t.hour)
      × (two_at 20 text ≡ t.minute)
      × (two_at 23 text ≡ t.second)
unfolding append_time at
append_time_lem b t h = (
  append_time [] t,
  refl,
  refl,
  two_digits t.day h.day_fits,
  four_digits t.year h.year_fits,
  two_digits t.hour (omega (arith, h.hour_fits)),
  two_digits t.minute (omega (arith, h.minute_fits)),
  two_digits t.second (omega (arith, h.second_fits)),
)
