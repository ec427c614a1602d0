-- ===== src/Time/Calendar/Gregorian.antt =====
-- The Gregorian calendar, stated without the tables and the loops of src/time/util.cpp, and what
-- the program's lengths of years and months are in it.
use deprecated_tcode.Common.{
  ℕ, zero, suc, ◌+◌, ◌-◌, ◌*◌, ◌/◌, ◌%◌, ◌≤◌, ◌<◌, ◌≡◌, refl, ap, ap₂, ◌∙◌, Bool, true, false, not,
  ◌&&◌, ◌||◌, ◌==◌, if◌then◌else◌, List, Option, none, some, ==_iff, get_elem?, arith, inl, inr,
  Bool-cases,
}
use deprecated_tcode.Time.Calendar.{
  is_leap_year, month_table, days_per_year, leap_year, common_year,
}
use deprecated_tcode.Time.Calendar.Lengths.{year_sum, month_sum, month_sum-suc, length-month_table}
use deprecated_tcode.Common.Maps.{all_below, all_below_lem}

-- The leap years up to a year, by the rule of the centuries.
abbrev pub leap_years : ℕ → ℕ
leap_years y = y / 4 - y / 100 + y / 400

abbrev pub is_leap : ℕ → Bool
is_leap y = (y % 400 == 0) || ((y % 4 == 0) && not (y % 100 == 0))

-- The days from the first of January 1970 to the first of January of a year.
abbrev pub days_before : ℕ → ℕ
days_before y = 365 * (y - 1970) + (leap_years (y - 1) - leap_years 1969)

is_leap_year_lem : (y : ℕ) → is_leap_year y ≡ is_leap y
unfolding is_leap_year
is_leap_year_lem y = ground arith

pub days_per_year_lem : (y : ℕ) → days_per_year y ≡ 365 + (if is_leap y then 1 else 0)
unfolding days_per_year
days_per_year_lem y = elim (Bool-cases (is_leap_year y)) [
  | inl leap ↦ rw (← is_leap_year_lem y, leap)
  | inr common ↦ rw (← is_leap_year_lem y, common)
]

leap_step : (y : ℕ) → 1 ≤ y → leap_years y ≡ leap_years (y - 1) + (if is_leap y then 1 else 0)
leap_step y h = ground arith

-- The lengths of `n` years, by the leap years among them.
pub year_sum-leap_years :
    (y n : ℕ) → 1 ≤ y → year_sum y n + leap_years (y - 1) ≡ 365 * n + leap_years (y + n - 1)
unfolding year_sum
year_sum-leap_years y zero h = let z : y + 0 - 1 ≡ y - 1 = omega arith in rw z (omega arith)
year_sum-leap_years y (suc n) h =
    let at : y + 1 + n - 1 ≡ y + suc n - 1 = omega arith in
    let same : y + 1 - 1 ≡ y = omega arith in
    let rest = rw (same, at) at (year_sum-leap_years (y + 1) n (omega arith)) in
    let step = leap_step y h in let year = days_per_year_lem y in omega (arith, rest, step, year)

pub days_before_lem : (n : ℕ) → year_sum 1970 n ≡ days_before (1970 + n)
days_before_lem n = let e = year_sum-leap_years 1970 n (omega arith) in omega (arith, e)

-- The lengths of the months, January being month 0.
abbrev pub month_length : (leap : Bool) → ℕ → ℕ
month_length leap month =
    if month == 1
    then (if leap then 29 else 28)
    else if (month == 3) || (month == 5) || (month == 8) || (month == 10)
    then 30
    else 31

abbrev pub months_before : (leap : Bool) → ℕ → ℕ
months_before leap zero = 0
months_before leap (suc month) = months_before leap month + month_length leap month

matches : Option ℕ → ℕ → Bool
matches none n = false
matches (some m) n = m == n

matches_lem : (o : Option ℕ) (n : ℕ) → matches o n ≡ true → o ≡ some n
unfolding matches
matches_lem none n e = absurd (ground (arith, e))
matches_lem (some m) n e = ap some ((==_iff m n).0 e)

entries : Bool → List ℕ → ℕ → Bool
entries leap table month = matches (get_elem? table month) (month_length leap month)

leap_checked : all_below (entries true leap_year) 12 ≡ true
unfolding all_below entries matches
leap_checked = refl

common_checked : all_below (entries false common_year) 12 ≡ true
unfolding all_below entries matches
common_checked = refl

-- An entry of the program's tables is the length of that month.
pub month_length_lem :
    (y month : ℕ)
    → month < 12
    → get_elem? (month_table y) month ≡ some (month_length (is_leap y) month)
unfolding month_table entries
month_length_lem y month h = elim (Bool-cases (is_leap_year y)) [
  | inl leap ↦
      rw (← is_leap_year_lem y, leap)
        (matches_lem _ _ (all_below_lem (entries true leap_year) 12 month leap_checked h))
  | inr common ↦
      rw (← is_leap_year_lem y, common)
        (matches_lem _ _ (all_below_lem (entries false common_year) 12 month common_checked h))
]

pub months_before_lem :
    (y month : ℕ) → month ≤ 12 → month_sum (month_table y) month ≡ months_before (is_leap y) month
unfolding month_sum
months_before_lem y zero h = refl
months_before_lem y (suc month) h =
    let table = month_table y in
    let (len, entry, e) = month_sum-suc table month (omega (arith, h, length-month_table y)) in
    let entry' = month_length_lem y month (omega (arith, h)) in
    let before = months_before_lem y month (omega (arith, h)) in
    let same : len ≡ month_length (is_leap y) month = cc in e ∙ ap₂ (λ a b. a + b) before same
