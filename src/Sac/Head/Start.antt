-- ===== src/Sac/Head/Start.antt =====
-- enrich_sac_starttime: the reference time of the header is the second in which the trace starts.
use tank_convertor.Base.{
  ℕ, zero, suc, ◌-◌, ◌+◌, ◌*◌, ◌^◌, ◌≤◌, ◌<◌, ◌≡◌, refl, ap, true, not, ◌&&◌, some, List, [], ◌∷◌,
  set, length, drop, ℤ, pos, negsuc, ltb_ℤ, ◌+ℤ◌, ◌-ℤ◌, arith,
}
use tank_convertor.Floating.{Floating}
use tank_convertor.Sac.{SacHead}
use tank_convertor.Sac.Calendar.{Tm, fits_int32, tm_at, broken_down, gmtime}
use tank_convertor.Sac.Calendar.Seconds.{days_of_years, IsTime, tm_at-IsTime, year_length-le}
use tank_convertor.Sac.Head.{enrich_sac_starttime}

first_six :
    (a b c d e g : ℤ) (l : List ℤ)
    → 6 ≤ length l
    → set (set (set (set (set (set l 0 a) 1 b) 2 c) 3 d) 4 e) 5 g ≡ a ∷ b ∷ c ∷ d ∷ e ∷ g ∷ drop 6 l
first_six a b c d e g [] h = absurd (omega arith)
first_six a b c d e g (v ∷ []) h = absurd (omega arith)
first_six a b c d e g (v ∷ w ∷ []) h = absurd (omega arith)
first_six a b c d e g (v ∷ w ∷ x ∷ []) h = absurd (omega arith)
first_six a b c d e g (v ∷ w ∷ x ∷ y ∷ []) h = absurd (omega arith)
first_six a b c d e g (v ∷ w ∷ x ∷ y ∷ z ∷ []) h = absurd (omega arith)
first_six a b c d e g (v ∷ w ∷ x ∷ y ∷ z ∷ u ∷ l) h = refl

days_of_years-le : (n y : ℕ) → 365 * n ≤ days_of_years n y
days_of_years-le zero y = omega arith
days_of_years-le (suc n) y = omega (arith, year_length-le y, days_of_years-le n (y + 1))

calendar_year : (n : ℕ) → (pos (1970 + n) -ℤ pos (1900 + 400 * 0)) +ℤ pos 1900 ≡ pos (1970 + n)
unfolding ◌+ℤ◌ ◌-ℤ◌
calendar_year n = ground arith

fits_int :
    (n : ℕ)
    → n < 2 ^ 30
    → (ltb_ℤ (pos (1970 + n) -ℤ pos (1900 + 400 * 0)) (pos (2 ^ 31))
        && not (ltb_ℤ (pos (1970 + n) -ℤ pos (1900 + 400 * 0)) (negsuc (2 ^ 31 - 1))))
      ≡ true
unfolding ◌-ℤ◌
fits_int n h = ground arith

-- gmtime finds the calendar time of every second of the next 2 ^ 53.
gmtime-IsTime : (t : ℕ) → t < 2 ^ 53 → (tm : Tm) × IsTime 0 t tm × (gmtime (pos t) ≡ some tm)
unfolding gmtime broken_down
gmtime-IsTime t h =
    let tm = tm_at 0 t in
    let v : IsTime 0 t tm = tm_at-IsTime 0 t in
    let few : v.years < 2 ^ 30 = omega (arith, v.seconds, days_of_years-le v.years 1970) in
    (tm, v, rw (v.year, fits_int v.years few) refl)

-- The thousandths of the fraction of a time.
abbrev pub millis_of : (f : Floating) → f.Double → ℤ
millis_of f starttime = f.int_of_double (
    f.mul (f.sub starttime (f.double_of_int (f.int_of_double starttime)))
      (f.double_of_int (pos 1000)))

-- For a start at the second `t` after the beginning of 1970, which is below 2 ^ 31, the first five
-- integer fields of the header are the year, the day of the year from one on, the hour, the minute
-- and the second of the calendar time that stands for `t`; the next one is the fraction of the start
-- in milliseconds, and the other fields are left alone.
pub enrich_sac_starttime-IsTime :
    (f : Floating) (starttime : f.Double) (t : ℕ) (h : SacHead f.Single)
    → f.int_of_double starttime ≡ pos t
    → t < 2 ^ 31
    → 6 ≤ length h.sac_int
    → (tm : Tm) × (time : IsTime 0 t tm) × (enrich_sac_starttime f starttime h
        ≡ some (record h {
          sac_int =
              pos (1970 + time.years)
              ∷ pos (tm.tm_yday + 1)
              ∷ pos tm.tm_hour
              ∷ pos tm.tm_min
              ∷ pos tm.tm_sec
              ∷ millis_of f starttime
              ∷ drop 6 h.sac_int;
        }))
unfolding enrich_sac_starttime
enrich_sac_starttime-IsTime f starttime t h e lt len =
    let (tm, time, found) = gmtime-IsTime t (omega (arith, lt)) in
    let second : fits_int32 (pos t) ≡ true = ground (arith, lt) in
    let seconds : fits_int32 (f.int_of_double starttime) ≡ true = rw e second in
    let year : tm.tm_year +ℤ pos 1900 ≡ pos (1970 + time.years) =
      rw time.year (calendar_year time.years) in
    (
      tm,
      time,
      rw (enrich_sac_starttime, e, found, seconds, year)
          (ap (λ (l : List ℤ). some (record h { sac_int = l }))
            (first_six _ _ _ _ _ _ h.sac_int len)),
    )
