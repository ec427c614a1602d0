-- ===== src/Time/Calendar/Date.antt =====
-- `convert_to` from a `time_t` gives a date, and the date counts the same seconds.
use deprecated_tcode.Common.{
  if◌then◌else◌, ℕ, ◌+◌, ◌-◌, ◌*◌, ◌/◌, ◌%◌, ◌≤◌, ◌<◌, ◌≡◌, some, get_elem?, arith,
}
use deprecated_tcode.Time.Calendar.{
  Tm, fill, year_loop, month_loop, month_table, days_per_year, days_of_years, days_of_months,
  number_of_days, convert_to,
}
use deprecated_tcode.Time.Calendar.Gregorian.{
  is_leap, days_before, months_before, month_length, days_before_lem, months_before_lem,
  month_length_lem, days_per_year_lem,
}
use deprecated_tcode.Time.Calendar.Lengths.{
  year_sum, month_sum, year_loop_lem, month_loop_lem, days_of_years_lem, days_of_months_lem,
  month_sum-month_table, length-month_table,
}

-- The fields are in their ranges, and the day exists in its month.
pub record IsDate (tm : Tm) : Type 0 where
  pub sec_lt : tm.sec < 60
  pub min_lt : tm.min < 60
  pub hour_lt : tm.hour < 24
  pub mon_lt : tm.mon < 12
  pub mday_pos : 1 ≤ tm.mday
  pub wday_lt : tm.wday < 7
  pub month_days : ℕ
  pub month : number_of_days (tm.year + 1900) (tm.mon + 1) ≡ some month_days
  pub mday_le : tm.mday ≤ month_days
  pub yday_lt : tm.yday < days_per_year (tm.year + 1900)

-- The date counts `t` seconds from 1970, by the program's own lengths of years and months: `years`
-- days are in the years before, `months` in the months before, and 1970 began on a Thursday.
pub record Counts (tm : Tm) (t : ℕ) : Type 0 where
  pub years : ℕ
  pub months : ℕ
  pub years_before : days_of_years 1970 (tm.year + 1900 - 1) ≡ some years
  pub months_before : days_of_months (tm.year + 1900) 1 tm.mon ≡ some months
  pub of_year : tm.yday + 1 ≡ months + tm.mday
  pub total : (years + tm.yday) * 86400 + tm.hour * 3600 + tm.min * 60 + tm.sec ≡ t
  pub weekday : tm.wday ≡ (years + tm.yday + 4) % 7

-- The date counts `t` seconds from 1970 by the Gregorian calendar, and the day is one of its month.
pub record IsGregorian (tm : Tm) (t : ℕ) : Type 0 where
  pub since_1970 : 1970 ≤ tm.year + 1900
  pub total :
      (days_before (tm.year + 1900) + tm.yday) * 86400 + tm.hour * 3600 + tm.min * 60 + tm.sec ≡ t
  pub of_year : tm.yday + 1 ≡ months_before (is_leap (tm.year + 1900)) tm.mon + tm.mday
  pub mday_le : tm.mday ≤ month_length (is_leap (tm.year + 1900)) tm.mon
  pub yday_lt : tm.yday < 365 + (if is_leap (tm.year + 1900) then 1 else 0)
  pub weekday : tm.wday ≡ (days_before (tm.year + 1900) + tm.yday + 4) % 7

convert_to_runs :
    (t year yday k day : ℕ)
    → year_loop (t / (60 * 60 * 24) + 1) (t / (60 * 60 * 24)) 1970 ≡ some (year, yday)
    → month_loop (month_table year) yday 0 ≡ some (0 + k, day)
    → convert_to t ≡ some (fill t year yday k day)
unfolding convert_to
convert_to_runs t year yday k day e g = let z : 0 + k ≡ k = omega arith in rw (e, convert_to, g, z)

-- The date of a day `yday` of the year 1970 + n that is day `day` of month `k`.
abbrev date : (t n yday k day : ℕ) → Tm
date t n yday k day = fill t (1970 + n) yday k day

same_year : (n : ℕ) → 1970 + n - 1900 + 1900 ≡ 1970 + n
same_year n = omega arith

module _ (t n yday k day len : ℕ) (split : t / (60 * 60 * 24) ≡ year_sum 1970 n + yday)
    (yday_lt : yday < days_per_year (1970 + n)) (below : k < 12)
    (of_months : yday ≡ month_sum (month_table (1970 + n)) k + day)
    (entry : get_elem? (month_table (1970 + n)) k ≡ some len) (day_lt : day < len) where
  date-IsDate : IsDate (date t n yday k day)
  unfolding fill number_of_days
  date-IsDate =
      let at : k + 1 - 1 ≡ k = omega arith in
      record {
        sec_lt = omega arith;
        min_lt = omega arith;
        hour_lt = omega arith;
        mon_lt = below;
        mday_pos = omega arith;
        wday_lt = omega arith;
        month_days = len;
        month = rw (same_year n, at) entry;
        mday_le = omega arith;
        yday_lt = rw (same_year n) yday_lt;
      }

  date-Counts : Counts (date t n yday k day) t
  unfolding fill
  date-Counts = record {
    years = year_sum 1970 n;
    months = month_sum (month_table (1970 + n)) k;
    years_before =
        let prev : 1970 + n - 1900 + 1900 - 1 ≡ 1970 + n - 1 = omega arith in
        rw prev (days_of_years_lem 1970 n (omega arith));
    months_before = rw (same_year n) (days_of_months_lem (1970 + n) k (omega arith));
    of_year = omega arith;
    total = omega arith;
    weekday = rw split;
  }

  date-IsGregorian : IsGregorian (date t n yday k day) t
  unfolding fill
  date-IsGregorian =
      let y = 1970 + n in
      let years = days_before_lem n in
      let months = months_before_lem y k (omega (arith, below)) in
      let entry' = month_length_lem y k below in
      let same : len ≡ month_length (is_leap y) k = cc in
      let year = days_per_year_lem y in
      record {
        since_1970 = omega arith;
        total = rw (same_year n) (omega (arith, years, split));
        of_year = rw (same_year n) (omega (arith, months, of_months));
        mday_le = rw (same_year n) (omega (arith, day_lt, same));
        yday_lt = rw (same_year n) (omega (arith, yday_lt, year));
        weekday = rw (same_year n, split, years);
      }

-- Every time since 1970 converts, both loops ending, to a date whose fields are in range and which
-- counts exactly the seconds that were given, by the program's lengths of years and months and by the
-- Gregorian calendar.
pub convert_to-Counts :
    (t : ℕ) → (tm : Tm) × (convert_to t ≡ some tm) × IsDate tm × Counts tm t × IsGregorian tm t
convert_to-Counts t =
    let d = t / (60 * 60 * 24) in
    let (n, yday, years_run, split, yday_lt) = year_loop_lem (d + 1) d 1970 (omega arith) in
    let table = month_table (1970 + n) in
    let (k, day, months_run, below, of_months, (len, entry, day_lt)) =
      month_loop_lem table yday 0 12 (length-month_table (1970 + n))
        (rw (month_sum-month_table (1970 + n)) yday_lt) in
    (
      date t n yday k day,
      convert_to_runs t (1970 + n) yday k day years_run months_run,
      date-IsDate t n yday k day len split yday_lt below of_months entry day_lt,
      date-Counts t n yday k day len split yday_lt below of_months entry day_lt,
      date-IsGregorian t n yday k day len split yday_lt below of_months entry day_lt,
    )
