-- ===== src/Sys/Rtc/Tests.antt =====
-- A clock that counts in decimal digits, on a December evening.
use lwos.Common.{ℕ, ◌≡◌, refl, true, arith, ◌==◌, if◌then◌else◌}
use lwos.Sys.{Time, get_rtc_time}
use lwos.Sys.Rtc.{Shows, get_rtc_time-Shows}

abbrev evening : Time
evening = record { year = 2026; month = 12; day = 31; hour = 23; minute = 59; second = 58 }

abbrev registers : ℕ → ℕ
registers r =
    if r == 9
    then 0x26
    else if r == 8
    then 0x12
    else if r == 7
    then 0x31
    else if r == 4
    then 0x23
    else if r == 2
    then 0x59
    else if r == 0
    then 0x58
    else 2

evening-Shows : Shows registers true evening
evening-Shows = record {
  mode = refl;
  whole_day = refl;
  century = omega arith;
  year = refl;
  month = refl;
  day = refl;
  hour = refl;
  minute = refl;
  second = refl;
  year_to = omega arith;
  month_to = omega arith;
  day_to = omega arith;
  hour_to = omega arith;
  minute_to = omega arith;
  second_to = omega arith;
}

get_rtc_time-Shows_example : get_rtc_time registers ≡ evening
get_rtc_time-Shows_example = get_rtc_time-Shows registers true evening evening-Shows
