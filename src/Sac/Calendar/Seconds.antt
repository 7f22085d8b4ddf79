-- ===== src/Sac/Calendar/Seconds.antt =====
-- gmtime, against the number of seconds that a calendar time stands for.
use tank_convertor.Base.{
  ℕ, zero, suc, ◌+◌, ◌-◌, ◌*◌, ◌/◌, ◌≤◌, ◌<◌, ◌≡◌, refl, ap, Bool-cases, inl, inr, ltb, pos, ◌-ℤ◌,
  arith,
}
use tank_convertor.Sac.Calendar.{Tm, year_length, year_day, tm_at}

-- The days of `n` years from the year `y` on.
abbrev pub days_of_years : (n y : ℕ) → ℕ
days_of_years zero y = 0
days_of_years (suc n) y = year_length y + days_of_years n (y + 1)

pub year_length-le : (y : ℕ) → 365 ≤ year_length y
unfolding year_length
year_length-le y = ground arith

-- The day `d` days after the first of the year `y`, as a number of years and a day of the last one.
year_day-days :
    (fuel y d : ℕ)
    → d ≤ fuel
    → (n : ℕ) × ((year_day fuel y d).0 ≡ y + n)
      × (days_of_years n y + (year_day fuel y d).1 ≡ d)
      × ((year_day fuel y d).1 < year_length (y + n))
unfolding year_day
year_day-days zero y d h = (0, omega arith, omega arith, omega (arith, year_length-le (y + 0)))
year_day-days (suc fuel) y d h = elim (Bool-cases (ltb d (year_length y))) [
  | inl within ↦
      rw within
        (0, omega arith, omega arith, let e : y + 0 ≡ y = omega arith in rw e (ground arith))
  | inr beyond ↦
      let (n, year, days, day) =
        year_day-days fuel (y + 1) (d - year_length y) (omega (arith, year_length-le y)) in
      let e : y + suc n ≡ y + 1 + n = omega arith in
      rw beyond (suc n, rw e year, ground (arith, days), rw e day)
]

-- A calendar time with its fields in range that stands for the second `t`, counted from the first
-- of the year 1970 - 400 * `cycles`.
pub record IsTime (cycles t : ℕ) (tm : Tm) : Type 0 where
  pub years : ℕ
  pub year : tm.tm_year ≡ pos (1970 + years) -ℤ pos (1900 + 400 * cycles)
  pub day : tm.tm_yday < year_length (1970 + years)
  pub hour : tm.tm_hour < 24
  pub min : tm.tm_min < 60
  pub sec : tm.tm_sec < 60
  pub seconds :
      (days_of_years years 1970 + tm.tm_yday) * 86400
        + (tm.tm_hour * 3600 + (tm.tm_min * 60 + tm.tm_sec))
      ≡ t

pub tm_at-IsTime : (cycles t : ℕ) → IsTime cycles t (tm_at cycles t)
unfolding tm_at
tm_at-IsTime cycles t =
    let (n, year, days, day) = year_day-days (t / 86400) 1970 (t / 86400) (omega arith) in
    record {
      years = n;
      year = rw year refl;
      day = day;
      hour = omega arith;
      min = omega arith;
      sec = omega arith;
      seconds = omega (arith, ap (λ (x : ℕ). x * 86400) days);
    }
