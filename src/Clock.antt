-- ===== src/Clock.antt =====
-- appendTime of server/mqtt/server.go. A time of Go's package time is its calendar and clock fields
-- in UTC, with the weekday from 0 and the month from 1 as that package counts them; a conversion
-- to byte takes the remainder by 256.
pub mod Fields
mod Tests
use kratos_transport_rpc.Prelude.{ℕ, zero, suc, ◌+◌, ◌-◌, ◌*◌, ◌/◌, ◌%◌, List, [], ◌∷◌, ◌++◌, Bytes}
use kratos_transport_rpc.Prelude.Text.{codes}

pub record Time : Type 0 where
  pub year : ℕ
  pub month : ℕ
  pub day : ℕ
  pub weekday : ℕ
  pub hour : ℕ
  pub minute : ℕ
  pub second : ℕ

abbrev days : Bytes
days = codes "SunMonTueWedThuFriSat"

abbrev months : Bytes
months = codes "JanFebMarAprMayJunJulAugSepOctNovDec"

-- `s[i]`; the fields of a time keep i in range
unfoldable pub at : ℕ → Bytes → ℕ
at i [] = 0
at zero (x ∷ s) = x
at (suc i) (x ∷ s) = at i s

-- `byte('0'+n)`
unfoldable pub digit : ℕ → ℕ
digit n = (b'0' + n) % 256

unfoldable pub append_time : Bytes → Time → Bytes
unfolding digit at
append_time b t =
    let d = 3 * t.weekday in
    let m = 3 * (t.month - 1) in
    b
    ++ (at d days
        ∷ at (d + 1) days
        ∷ at (d + 2) days
        ∷ b','
        ∷ b' '
        ∷ digit (t.day / 10)
        ∷ digit (t.day % 10)
        ∷ b' '
        ∷ at m months
        ∷ at (m + 1) months
        ∷ at (m + 2) months
        ∷ b' '
        ∷ digit (t.year / 1000)
        ∷ digit (t.year / 100 % 10)
        ∷ digit (t.year / 10 % 10)
        ∷ digit (t.year % 10)
        ∷ b' '
        ∷ digit (t.hour / 10)
        ∷ digit (t.hour % 10)
        ∷ b':'
        ∷ digit (t.minute / 10)
        ∷ digit (t.minute % 10)
        ∷ b':'
        ∷ digit (t.second / 10)
        ∷ digit (t.second % 10)
        ∷ b' '
        ∷ b'G'
        ∷ b'M'
        ∷ b'T'
        ∷ [])
