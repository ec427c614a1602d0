-- ===== src/Time/Calendar/Lengths.antt =====
-- The loops of the calendar and what they count.
use deprecated_tcode.Common.{
  ℕ, zero, suc, ◌+◌, ◌-◌, ◌≤◌, ◌<◌, ◌≡◌, refl, inl, inr, ap, true, false, List, [], ◌∷◌, some, ltb,
  leb, get_elem?, length, arith, Bool-cases,
}
use mathlib.Core.Option
use deprecated_tcode.Time.Calendar.{
  is_leap_year, month_table, days_per_year, years_loop, days_of_years, months_loop, days_of_months,
  year_loop, month_loop,
}

-- The days of `n` years from `year` on.
unfoldable pub year_sum : ℕ → ℕ → ℕ
year_sum year zero = 0
year_sum year (suc n) = days_per_year year + year_sum (year + 1) n

-- The days of the first `n` months of a table.
unfoldable pub month_sum : List ℕ → ℕ → ℕ
month_sum table zero = 0
month_sum [] (suc n) = 0
month_sum (d ∷ ds) (suc n) = d + month_sum ds n

days_per_year_pos : (year : ℕ) → 1 ≤ days_per_year year
unfolding days_per_year
days_per_year_pos year = ground arith

-- The months of a year add up to the year.
pub month_sum-month_table : (year : ℕ) → month_sum (month_table year) 12 ≡ days_per_year year
unfolding month_sum month_table days_per_year
month_sum-month_table year = elim (Bool-cases (is_leap_year year)) [
  | inl leap ↦ rw leap
  | inr common ↦ rw common
]

pub year_loop_lem :
    (f d year : ℕ)
    → d < f
    → (n d' : ℕ) × (year_loop f d year ≡ some (year + n, d'))
      × (d ≡ year_sum year n + d')
      × (d' < days_per_year (year + n))
unfolding year_loop year_sum
year_loop_lem zero d year h = absurd (omega arith)
year_loop_lem (suc f) d year h = elim (Bool-cases (ltb d (days_per_year year))) [
  | inl ends ↦
      let e : year + 0 ≡ year = omega arith in
      (0, d, rw (ends, e), omega arith, rw e (ground arith))
  | inr goes ↦
      let (n, d', run, split, below) =
        year_loop_lem f (d - days_per_year year) (year + 1)
          (ground (arith, days_per_year_pos year)) in
      let e : year + 1 + n ≡ year + suc n = omega arith in
      (suc n, d', rw goes (rw e at run), ground arith, rw e at below)
]

-- The loop of `number_of_days_between` adds the lengths of the years that are left.
years_loop_lem :
    (f year n tot : ℕ) (year_end : ℕ)
    → n < f
    → year + n ≡ year_end + 1
    → years_loop f year year_end tot ≡ some (tot + year_sum year n)
unfolding years_loop year_sum
years_loop_lem zero year n tot year_end h e = absurd (omega arith)
years_loop_lem (suc f) year zero tot year_end h e =
    let past : leb year year_end ≡ false = ground arith in
    let z : tot + 0 ≡ tot = omega arith in rw (past, z)
years_loop_lem (suc f) year (suc n) tot year_end h e =
    let more : leb year year_end ≡ true = ground arith in
    rw
      (
        more,
        years_loop_lem f (year + 1) n (tot + days_per_year year) year_end (omega arith)
            (omega arith),
      )
      (ap some (omega arith))

-- `number_of_days_between( year , year + n - 1 )` is the sum of the lengths of `n` years.
pub days_of_years_lem :
    (year n : ℕ) → 1 ≤ year → days_of_years year (year + n - 1) ≡ some (year_sum year n)
unfolding days_of_years
days_of_years_lem year zero pos =
    let none_left : ltb (year + 0 - 1) year ≡ true = ground arith in unfold year_sum in rw none_left
days_of_years_lem year (suc n) pos =
    let some_left : ltb (year + suc n - 1) year ≡ false = ground arith in
    rw
      (
        some_left,
        years_loop_lem (year + suc n - 1 - year + 2) year (suc n) 0 (year + suc n - 1) (omega arith)
            (omega arith),
      )
      (ap some (omega arith))

-- The second loop of `convert_to` finds the month.
pub month_loop_lem :
    (table : List ℕ) (d month n : ℕ)
    → length table ≡ n
    → d < month_sum table n
    → (k d' : ℕ) × (month_loop table d month ≡ some (month + k, d'))
      × (k < n)
      × (d ≡ month_sum table k + d')
      × ((len : ℕ) × (get_elem? table k ≡ some len) × (d' < len))
unfolding month_loop month_sum
month_loop_lem [] d month zero e h = elim h [ ]
month_loop_lem [] d month (suc n) e h = absurd (omega arith)
month_loop_lem (x ∷ table) d month zero e h = absurd (omega arith)
month_loop_lem (x ∷ table) d month (suc n) e h = elim (Bool-cases (ltb d x)) [
  | inl ends ↦
      let z : month + 0 ≡ month = omega arith in
      (0, d, rw (ends, z), omega arith, omega arith, (x, refl, ground arith))
  | inr goes ↦
      let (k, d', run, below, split, entry) =
        month_loop_lem table (d - x) (month + 1) n (omega arith) (ground arith) in
      let z : month + 1 + k ≡ month + suc k = omega arith in
      (suc k, d', rw goes (rw z at run), omega arith, ground arith, entry)
]

pub month_sum-suc :
    (table : List ℕ) (k : ℕ)
    → k < length table
    → (len : ℕ) × (get_elem? table k ≡ some len)
      × (month_sum table (suc k) ≡ month_sum table k + len)
unfolding month_sum
month_sum-suc [] k h = absurd (omega arith)
month_sum-suc (d ∷ table) zero h = (d, refl, ground arith)
month_sum-suc (d ∷ table) (suc k) h =
    let (len, entry, e) = month_sum-suc table k (omega arith) in (len, entry, omega (arith, e))

months_loop_lem :
    (table : List ℕ) (f j n mon_end : ℕ)
    → n < f
    → j + n ≡ mon_end
    → mon_end ≤ length table
    → months_loop table f (j + 1) mon_end (month_sum table j) ≡ some (month_sum table mon_end)
unfolding months_loop Option.bind month_sum
months_loop_lem table zero j n mon_end h e le = absurd (omega arith)
months_loop_lem table (suc f) j zero mon_end h e le =
    let past : leb (j + 1) mon_end ≡ false = ground arith in
    let at : j ≡ mon_end = omega arith in rw (past, at)
months_loop_lem table (suc f) j (suc n) mon_end h e le =
    let more : leb (j + 1) mon_end ≡ true = ground arith in
    let (len, entry, step) = month_sum-suc table j (omega arith) in
    let back : j + 1 - 1 ≡ j = omega arith in
    let next : j + 1 ≡ suc j = omega arith in
    rw (more, back, entry, ← step, next)
      (months_loop_lem table f (suc j) n mon_end (omega arith) (omega arith) le)

pub length-month_table : (year : ℕ) → length (month_table year) ≡ 12
unfolding month_table
length-month_table year = ground arith

-- `number_of_days_between( year , 1 , mon )` adds the first `mon` entries of the year's table.
pub days_of_months_lem :
    (year mon : ℕ) → mon ≤ 12 → days_of_months year 1 mon ≡ some (month_sum (month_table year) mon)
unfolding days_of_months
days_of_months_lem year zero h = unfold month_sum in refl
days_of_months_lem year (suc mon) h =
    let table = month_table year in
    let some_left : ltb (suc mon) 1 ≡ false = ground arith in
    let run =
      months_loop_lem table (suc mon - 1 + 2) 0 (suc mon) (suc mon) (omega arith) (omega arith)
        (omega (arith, length-month_table year)) in
    rw some_left (unfold month_sum in run)
