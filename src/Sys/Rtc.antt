-- ===== src/Sys/Rtc.antt =====
-- The time of day from a clock that counts in decimal digits or in plain numbers.
mod Tests
use lwos.Common.{
  ℕ, ◌+◌, ◌-◌, ◌*◌, ◌/◌, ◌%◌, ◌≤◌, ◌<◌, ◌≡◌, refl, ◌∙◌, Bool, true, false, bit_and, ◌==◌,
  if◌then◌else◌, arith, Bool-cases, inl, inr,
}
use lwos.Common.Bits.{and_0xf}
use lwos.Sys.{Time, bcd_to_dec, clk_status, get_rtc_time}

-- A number below 100 as two decimal digits of four bits.
abbrev pub bcd : ℕ → ℕ
bcd n = n / 10 * 16 + n % 10

bcd_to_dec-bcd : (n : ℕ) → n < 100 → bcd_to_dec (bcd n) ≡ n
unfolding bcd_to_dec
bcd_to_dec-bcd n h = omega (arith, and_0xf (bcd n))

-- What a register holds of a number, in the mode that the status register tells.
abbrev pub in_mode : (decimal : Bool) → ℕ → ℕ
in_mode decimal n = if decimal then bcd n else n

-- The registers of a clock that counts hours from 0 to 23, as bit 1 of its status register tells, at a
-- time of this century.
pub record Shows (read_register : ℕ → ℕ) (decimal : Bool) (t : Time) : Type 0 where
  pub mode : (bit_and (read_register clk_status) 0x04 == 0) ≡ decimal
  pub whole_day : (bit_and (read_register clk_status) 0x02 == 0) ≡ false
  pub century : 2000 ≤ t.year
  pub year : read_register 9 ≡ in_mode decimal (t.year - 2000)
  pub month : read_register 8 ≡ in_mode decimal t.month
  pub day : read_register 7 ≡ in_mode decimal t.day
  pub hour : read_register 4 ≡ in_mode decimal t.hour
  pub minute : read_register 2 ≡ in_mode decimal t.minute
  pub second : read_register 0 ≡ in_mode decimal t.second
  pub year_to : t.year < 2100
  pub month_to : t.month < 100
  pub day_to : t.day < 100
  pub hour_to : t.hour < 24
  pub minute_to : t.minute < 100
  pub second_to : t.second < 100

-- A clock that counts hours from 0 to 23, in decimal digits or in plain numbers: get_rtc_time gives
-- the time that it shows, for the years 2000 to 2099.
pub get_rtc_time-Shows :
    (read_register : ℕ → ℕ) (decimal : Bool) (t : Time)
    → Shows read_register decimal t
    → get_rtc_time read_register ≡ t
unfolding get_rtc_time
get_rtc_time-Shows read_register true t s =
    let whole : t.year - 2000 + 2000 ≡ t.year = omega (arith, s.century) in
    rw
      (
        s.mode,
        s.year,
        s.month,
        s.day,
        s.hour,
        s.minute,
        s.second,
        bcd_to_dec-bcd (t.year - 2000) (omega (arith, s.year_to)),
        bcd_to_dec-bcd t.month s.month_to,
        bcd_to_dec-bcd t.day s.day_to,
        bcd_to_dec-bcd t.hour (omega (arith, s.hour_to)),
        bcd_to_dec-bcd t.minute s.minute_to,
        bcd_to_dec-bcd t.second s.second_to,
        whole,
      )
      refl
get_rtc_time-Shows read_register false t s =
    let whole : t.year - 2000 + 2000 ≡ t.year = omega (arith, s.century) in
    rw (s.mode, s.year, s.month, s.day, s.hour, s.minute, s.second, whole) refl
