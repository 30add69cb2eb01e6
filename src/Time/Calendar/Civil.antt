-- ===== src/Time/Calendar/Civil.antt =====
-- The dates of `civil`, whose years begin in March, against the calendar.
use binance_monitor.Base.{
  ltb, leb, if◌then◌else◌, ℕ, zero, suc, ◌+◌, ◌-◌, ◌*◌, ◌/◌, ◌%◌, ◌≤◌, ◌<◌, ◌≡◌, refl, ◌∙◌, arith,
}
use binance_monitor.Time.{civil}
use binance_monitor.Time.Calendar.{
  leaps_before, leaps_before-suc, sum, days_before, leap_days, month_length, IsDate, seconds_of,
}

march_month : (mp : ℕ) → ℕ
march_month mp = if ltb mp 10 then mp + 3 else mp - 9

days_before-march :
    (era yoe doy mp : ℕ)
    → yoe < 400
    → mp ≡ (5 * doy + 2) / 153
    → mp < 12
    → days_before
        (if leb (march_month mp) 2 then yoe + era * 400 + 1 else yoe + era * 400)
        (march_month mp)
        (doy - (153 * mp + 2) / 5 + 1)
      ≡ era * 146097 + (365 * yoe + yoe / 4 - yoe / 100) + doy + 60
unfolding days_before sum march_month leaps_before
days_before-march era yoe doy zero y e h = omega arith
days_before-march era yoe doy (suc zero) y e h = omega arith
days_before-march era yoe doy (suc (suc zero)) y e h = omega arith
days_before-march era yoe doy (suc (suc (suc zero))) y e h = omega arith
days_before-march era yoe doy (suc (suc (suc (suc zero)))) y e h = omega arith
days_before-march era yoe doy (suc (suc (suc (suc (suc zero))))) y e h = omega arith
days_before-march era yoe doy (suc (suc (suc (suc (suc (suc zero)))))) y e h = omega arith
days_before-march era yoe doy (suc (suc (suc (suc (suc (suc (suc zero))))))) y e h = omega arith
days_before-march era yoe doy (suc (suc (suc (suc (suc (suc (suc (suc zero)))))))) y e h =
    omega arith
days_before-march era yoe doy (suc (suc (suc (suc (suc (suc (suc (suc (suc zero))))))))) y e h =
    omega arith
days_before-march era yoe doy (suc (suc (suc (suc (suc (suc (suc (suc (suc (suc zero)))))))))) y e
      h =
    omega arith
days_before-march era yoe doy (suc (suc (suc (suc (suc (suc (suc (suc (suc (suc (suc zero)))))))))))
      y e h =
    omega arith
days_before-march era yoe doy
      (suc (suc (suc (suc (suc (suc (suc (suc (suc (suc (suc (suc mp)))))))))))) y e h =
    omega arith

march-month_length :
    (era yoe doy mp : ℕ)
    → yoe < 400
    → doy < 365 + leap_days (yoe + era * 400 + 1)
    → mp ≡ (5 * doy + 2) / 153
    → mp < 12
    → doy - (153 * mp + 2) / 5 + 1
      ≤ month_length
          (if leb (march_month mp) 2 then yoe + era * 400 + 1 else yoe + era * 400)
          (march_month mp)
unfolding month_length sum march_month
march-month_length era yoe doy zero y d e h = omega arith
march-month_length era yoe doy (suc zero) y d e h = omega arith
march-month_length era yoe doy (suc (suc zero)) y d e h = omega arith
march-month_length era yoe doy (suc (suc (suc zero))) y d e h = omega arith
march-month_length era yoe doy (suc (suc (suc (suc zero)))) y d e h = omega arith
march-month_length era yoe doy (suc (suc (suc (suc (suc zero))))) y d e h = omega arith
march-month_length era yoe doy (suc (suc (suc (suc (suc (suc zero)))))) y d e h = omega arith
march-month_length era yoe doy (suc (suc (suc (suc (suc (suc (suc zero))))))) y d e h = omega arith
march-month_length era yoe doy (suc (suc (suc (suc (suc (suc (suc (suc zero)))))))) y d e h =
    omega arith
march-month_length era yoe doy (suc (suc (suc (suc (suc (suc (suc (suc (suc zero))))))))) y d e h =
    omega arith
march-month_length era yoe doy (suc (suc (suc (suc (suc (suc (suc (suc (suc (suc zero)))))))))) y d
      e h =
    omega arith
march-month_length era yoe doy
      (suc (suc (suc (suc (suc (suc (suc (suc (suc (suc (suc zero))))))))))) y d e h =
    omega arith
march-month_length era yoe doy
      (suc (suc (suc (suc (suc (suc (suc (suc (suc (suc (suc (suc mp)))))))))))) y d e h =
    omega arith

-- The days that civil counts: the day of the era, the year of the era and the day of the year.
day_of_era : (days : ℕ) → ℕ
day_of_era days = (days + 719468) % 146097

year_of_era : ℕ → ℕ
year_of_era doe = (doe - doe / 1460 + doe / 36524 - doe / 146096) / 365

day_of_year : ℕ → ℕ
day_of_year doe = doe - (365 * year_of_era doe + year_of_era doe / 4 - year_of_era doe / 100)

year_of_era-bound : (doe : ℕ) → doe < 146097 → year_of_era doe < 400
unfolding year_of_era
year_of_era-bound doe h = omega arith

day_of_era-split :
    (doe : ℕ)
    → doe < 146097
    → doe ≡ (365 * year_of_era doe + year_of_era doe / 4 - year_of_era doe / 100) + day_of_year doe
unfolding year_of_era day_of_year
day_of_era-split doe h = omega arith

day_of_year-count :
    (era doe n : ℕ)
    → doe < 146097
    → leaps_before (year_of_era doe + era * 400 + 1 + 1)
      ≡ leaps_before (year_of_era doe + era * 400 + 1) + n
    → day_of_year doe < 365 + n
unfolding leaps_before year_of_era day_of_year
day_of_year-count era doe n h e = omega arith

day_of_year-bound :
    (era doe : ℕ)
    → doe < 146097
    → day_of_year doe < 365 + leap_days (year_of_era doe + era * 400 + 1)
day_of_year-bound era doe h =
    day_of_year-count era doe _ h (leaps_before-suc (year_of_era doe + era * 400 + 1))

month_of_year : (doe : ℕ) → doe < 146097 → (5 * day_of_year doe + 2) / 153 < 12
unfolding day_of_year year_of_era
month_of_year doe h = omega arith

march_month-bound : (mp : ℕ) → mp < 12 → (1 ≤ march_month mp) × (march_month mp ≤ 12)
unfolding march_month
march_month-bound mp h = ground arith

pub civil-IsDate : (days secs : ℕ) → secs < 86400 → IsDate (civil days secs)
unfolding civil day_of_era day_of_year year_of_era march_month
civil-IsDate days secs h =
    let doe = day_of_era days in
    let inside : doe < 146097 = omega arith in
    let month = month_of_year doe inside in
    record {
      mon = march_month-bound _ month;
      mday = (
        omega arith,
        march-month_length ((days + 719468) / 146097) (year_of_era doe) (day_of_year doe) _
            (year_of_era-bound doe inside) (day_of_year-bound ((days + 719468) / 146097) doe inside)
            refl month,
      );
      hour = omega arith;
      min = omega arith;
      sec = omega arith;
    }

days_before-civil :
    (days secs : ℕ)
    → days_before (civil days secs).year (civil days secs).mon (civil days secs).mday
      ≡ days + 719528
unfolding civil day_of_era day_of_year year_of_era march_month
days_before-civil days secs =
    let doe = day_of_era days in
    let inside : doe < 146097 = omega arith in
    days_before-march ((days + 719468) / 146097) (year_of_era doe) (day_of_year doe) _
      (year_of_era-bound doe inside) refl (month_of_year doe inside)
    ∙ days_of_split days (365 * year_of_era doe + year_of_era doe / 4 - year_of_era doe / 100)
        (day_of_year doe) (day_of_era-split doe inside)
  where
    days_of_split :
        (d a b : ℕ)
        → (d + 719468) % 146097 ≡ a + b
        → (d + 719468) / 146097 * 146097 + a + b + 60 ≡ d + 719528
    days_of_split d a b e = omega arith

seconds_of_day :
    (n t : ℕ)
    → n ≡ t / 86400 + 719528
    → (n - days_before 1970 1 1) * 86400
        + t % 86400 / 3600 * 3600
        + t % 86400 / 60 % 60 * 60
        + t % 86400 % 60
      ≡ t
unfolding days_before sum leaps_before
seconds_of_day n t e = omega arith

pub seconds_of-civil : (t : ℕ) → seconds_of (civil (t / 86400) (t % 86400)) ≡ t
unfolding seconds_of civil
seconds_of-civil t = seconds_of_day _ t (days_before-civil (t / 86400) (t % 86400))

year_bound :
    (year mon mday t : ℕ)
    → days_before year mon mday ≡ t / 86400 + 719528
    → t < 253402300800
    → year < 10000
unfolding days_before leaps_before
year_bound year mon mday t e h = ground arith

-- Before the year 10000.
pub civil-year : (t : ℕ) → t < 253402300800 → (civil (t / 86400) (t % 86400)).year < 10000
civil-year t h = year_bound _ _ _ t (days_before-civil (t / 86400) (t % 86400)) h
