-- ===== src/Sac/Calendar.antt =====
-- gmtime of <time.h>: the fields of a calendar time that the program reads, by the Gregorian calendar.
pub mod Seconds
use tank_convertor.Base.{
  ℕ, zero, suc, ◌+◌, ◌-◌, ◌*◌, ◌/◌, ◌%◌, ◌^◌, Bool, true, false, not, ◌&&◌, ◌||◌, ◌==◌, ltb,
  if◌then◌else◌, Option, none, some, ℤ, pos, negsuc, ◌+ℤ◌, ◌-ℤ◌, ltb_ℤ,
}

pub record Tm : Type 0 where
  pub tm_year : ℤ
  pub tm_yday : ℕ
  pub tm_hour : ℕ
  pub tm_min : ℕ
  pub tm_sec : ℕ

unfoldable pub is_leap : ℕ → Bool
is_leap y = y % 4 == 0 && (not (y % 100 == 0) || y % 400 == 0)

unfoldable pub year_length : ℕ → ℕ
year_length y = if is_leap y then 366 else 365

-- The year and the day of the year of the day that is `d` days after the first of the year `y`. A
-- round takes off a year, so `d` rounds are enough.
unfoldable pub year_day : (fuel y d : ℕ) → ℕ × ℕ
year_day zero y d = (y, d)
year_day (suc fuel) y d =
    let rest = year_day fuel (y + 1) (d - year_length y) in
    if ltb d (year_length y) then (y, d) else rest

-- The calendar repeats itself after 400 years.
abbrev pub cycle_seconds : ℕ
cycle_seconds = 146097 * 86400

-- The time `t` seconds after the beginning of 1970, `cycles` times 400 years earlier.
unfoldable pub tm_at : (cycles t : ℕ) → Tm
tm_at cycles t =
    let (y, d) = year_day (t / 86400) 1970 (t / 86400) in
    record {
      tm_year = pos y -ℤ pos (1900 + 400 * cycles);
      tm_yday = d;
      tm_hour = t % 86400 / 3600;
      tm_min = t % 3600 / 60;
      tm_sec = t % 60;
    }

unfoldable pub broken_down : ℤ → Tm
broken_down (pos t) = tm_at 0 t
broken_down (negsuc n) =
    let cycles = n / cycle_seconds + 1 in tm_at cycles (cycles * cycle_seconds - n - 1)

-- The value of an `int32_t`, which is also an `int`.
abbrev pub fits_int32 : ℤ → Bool
fits_int32 z = ltb_ℤ z (pos (2 ^ 31)) && not (ltb_ℤ z (negsuc (2 ^ 31 - 1)))

-- `none` is the null pointer, for a year that does not fit an `int`.
unfoldable pub gmtime : ℤ → Option Tm
gmtime t = let tm = broken_down t in if fits_int32 tm.tm_year then some tm else none
