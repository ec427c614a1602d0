-- ===== src/Time/Calendar.antt =====
-- src/time/util.cpp: from seconds since 1970 to a date, and the lengths of years and months.
-- Years and times are natural numbers: years before 0 and times before 1970 are left out, and so is
-- the wrap of the day count, an int32, which starts after more than five million years. A loop takes
-- fuel and is `none` when it runs out; a read beyond the month table is `none` too.
pub mod Lengths
pub mod Date
pub mod Gregorian
pub mod Forms
use deprecated_tcode.Common.{
  ℕ, zero, suc, ◌+◌, ◌-◌, ◌*◌, ◌/◌, ◌%◌, Bool, true, false, List, [], ◌∷◌, Option, none, some, ◌==◌,
  ltb, leb, if◌then◌else◌, get_elem?,
}
use mathlib.Core.Option

abbrev pub common_year : List ℕ
common_year = 31 ∷ 28 ∷ 31 ∷ 30 ∷ 31 ∷ 30 ∷ 31 ∷ 31 ∷ 30 ∷ 31 ∷ 30 ∷ 31 ∷ []

abbrev pub leap_year : List ℕ
leap_year = 31 ∷ 29 ∷ 31 ∷ 30 ∷ 31 ∷ 30 ∷ 31 ∷ 31 ∷ 30 ∷ 31 ∷ 30 ∷ 31 ∷ []

unfoldable pub is_leap_year : ℕ → Bool
is_leap_year year =
    if year % 4 == 0
    then (if year % 100 == 0 then (if year % 400 == 0 then true else false) else true)
    else false

-- `MONTH_TABLE[ is_leap_year( year ) ? 1 : 0 ]`.
unfoldable pub month_table : ℕ → List ℕ
unfolding is_leap_year
month_table year = if is_leap_year year then leap_year else common_year

-- `is_leap_year( year ) ? 366 : 365`.
unfoldable pub days_per_year : ℕ → ℕ
unfolding is_leap_year
days_per_year year = if is_leap_year year then 366 else 365

unfoldable pub years_loop : (fuel year year_end tot : ℕ) → Option ℕ
years_loop zero year year_end tot = none
years_loop (suc f) year year_end tot =
    let rest = years_loop f (year + 1) year_end (tot + days_per_year year) in
    if leb year year_end then rest else some tot

-- `number_of_days_between( int year_start , int year_end )`.
unfoldable pub days_of_years : (year_start year_end : ℕ) → Option ℕ
unfolding years_loop days_per_year
days_of_years year_start year_end =
    if ltb year_end year_start
    then some 0
    else years_loop (year_end - year_start + 2) year_start year_end 0

unfoldable pub months_loop : List ℕ → (fuel mon mon_end tot : ℕ) → Option ℕ
months_loop table zero mon mon_end tot = none
months_loop table (suc f) mon mon_end tot =
    let rest = λ (d : ℕ). months_loop table f (mon + 1) mon_end (tot + d) in
    if leb mon mon_end then Option.bind (get_elem? table (mon - 1)) rest else some tot

-- `number_of_days_between( int year , int mon_start , int mon_end )`.
unfoldable pub days_of_months : (year mon_start mon_end : ℕ) → Option ℕ
unfolding months_loop month_table
days_of_months year mon_start mon_end =
    if ltb mon_end mon_start
    then some 0
    else months_loop (month_table year) (mon_end - mon_start + 2) mon_start mon_end 0

unfoldable pub number_of_days : (year month : ℕ) → Option ℕ
number_of_days year month = get_elem? (month_table year) (month - 1)

-- `struct tm`; the year counts from 1900.
pub record Tm : Type 0 where
  pub sec : ℕ
  pub min : ℕ
  pub hour : ℕ
  pub mday : ℕ
  pub mon : ℕ
  pub year : ℕ
  pub wday : ℕ
  pub yday : ℕ
  pub isdst : ℕ

-- The first loop of `convert_to`: the year and the days into it.
unfoldable pub year_loop : (fuel daycount year : ℕ) → Option (ℕ × ℕ)
year_loop zero daycount year = none
year_loop (suc f) daycount year =
    let rest = year_loop f (daycount - days_per_year year) (year + 1) in
    if ltb daycount (days_per_year year) then some (year, daycount) else rest

-- The second loop, over the entries of the month table from `month` on.
unfoldable pub month_loop : List ℕ → (daycount month : ℕ) → Option (ℕ × ℕ)
month_loop [] daycount month = none
month_loop (d ∷ ds) daycount month =
    let rest = month_loop ds (daycount - d) (month + 1) in
    if ltb daycount d then some (month, daycount) else rest

-- What `convert_to` stores once both loops have ended.
unfoldable pub fill : (t year yday month daycount : ℕ) → Tm
fill t year yday month daycount = record {
  sec = t % 60;
  min = t % (60 * 60) / 60;
  hour = t % (60 * 60 * 24) / (60 * 60);
  mday = daycount + 1;
  mon = month;
  year = year - 1900;
  wday = (t / (60 * 60 * 24) + 4) % 7;
  yday = yday;
  isdst = 0;
}

-- `convert_to( const time_t , struct tm& )`.
unfoldable pub convert_to : ℕ → Option Tm
convert_to t = elim (year_loop (t / (60 * 60 * 24) + 1) (t / (60 * 60 * 24)) 1970) [
  | none ↦ none
  | some (year, yday) ↦ elim (month_loop (month_table year) yday 0) [
    | none ↦ none
    | some (month, daycount) ↦ some (fill t year yday month daycount)
  ]
]
