-- ===== src/Time/Calendar/Forms.antt =====
-- src/time/util.cpp and src/time/systemtime.cpp: a timestamp since 1970 in the system's other forms,
-- outside Windows. `wDayOfWeek` of a `systemtime` is not set there.
use deprecated_tcode.Common.{
  ℕ, ◌+◌, ◌*◌, ◌/◌, ◌%◌, ◌^◌, ◌<◌, ◌≤◌, ◌≡◌, refl, Option, none, some, arith,
}
use deprecated_tcode.Time.Calendar.{Tm, convert_to, days_per_year}
use deprecated_tcode.Time.Calendar.Date.{IsDate, Counts, IsGregorian, convert_to-Counts}

-- `convert_to( const timestamp& , time_t& )`.
unfoldable pub to_time_t : ℕ → ℕ
to_time_t tick = tick / (1000 * 1000)

pub record Timeval : Type 0 where
  pub tv_sec : ℕ
  pub tv_usec : ℕ

unfoldable pub to_timeval : ℕ → Timeval
to_timeval tick = record { tv_sec = tick / (1000 * 1000); tv_usec = tick % (1000 * 1000) }

pub record Timespec : Type 0 where
  pub tv_sec : ℕ
  pub tv_nsec : ℕ

unfoldable pub to_timespec : ℕ → Timespec
to_timespec tick = record { tv_sec = tick / (1000 * 1000); tv_nsec = tick % (1000 * 1000) * 1000 }

-- The high part has 32 bits and the low part, as it is declared, 16.
pub record Filetime : Type 0 where
  pub high : ℕ
  pub low : ℕ

-- Hundreds of nanoseconds since 1601, in 64 bits.
abbrev pub since_1601 : ℕ → ℕ
since_1601 tick = (tick + 11644473600 * 1000 * 1000) % 2 ^ 64 * 10 % 2 ^ 64

unfoldable pub to_filetime : ℕ → Filetime
to_filetime tick = record {
  high = since_1601 tick / 2 ^ 32 % 2 ^ 32;
  low = since_1601 tick % 2 ^ 32 % 2 ^ 16;
}

pub record SystemTime : Type 0 where
  pub year : ℕ
  pub month : ℕ
  pub day : ℕ
  pub hour : ℕ
  pub minute : ℕ
  pub second : ℕ
  pub milliseconds : ℕ

-- An int stored in a uint16_t.
abbrev word : ℕ → ℕ
word n = n % 2 ^ 16

abbrev pub stored_date : ℕ → Tm → SystemTime
stored_date tick tm = record {
  year = word (tm.year + 1900);
  month = word (tm.mon + 1);
  day = word tm.mday;
  hour = word tm.hour;
  minute = word tm.min;
  second = word tm.sec;
  milliseconds = word (tick % (1000 * 1000) / 1000);
}

-- `systemtime( const timestamp& )`, and the `convert_to` with the same lines.
unfoldable pub to_systemtime : ℕ → Option SystemTime
to_systemtime tick = elim (convert_to (to_time_t tick)) [
  | none ↦ none
  | some tm ↦ some (stored_date tick tm)
]

-- For every time since 1970 the seconds of the three forms are those of the `time_t`, and the
-- timeval and the timespec, whose fractions are below a second, are the timestamp to the
-- microsecond.
pub forms_agree :
    (tick : ℕ)
    → ((to_timeval tick).tv_sec ≡ to_time_t tick)
      × ((to_timespec tick).tv_sec ≡ to_time_t tick)
      × ((to_timeval tick).tv_sec * 1000000 + (to_timeval tick).tv_usec ≡ tick)
      × ((to_timeval tick).tv_usec < 1000000)
      × ((to_timespec tick).tv_sec * 1000000000 + (to_timespec tick).tv_nsec ≡ tick * 1000)
      × ((to_timespec tick).tv_nsec < 1000000000)
unfolding to_timeval to_timespec to_time_t
forms_agree tick = (refl, refl, omega arith, omega arith, omega arith, omega arith)

-- The fields of a date, each as it is, and the milliseconds.
abbrev pub exact : ℕ → Tm → SystemTime
exact tick tm = record {
  year = tm.year + 1900;
  month = tm.mon + 1;
  day = tm.mday;
  hour = tm.hour;
  minute = tm.min;
  second = tm.sec;
  milliseconds = tick % 1000000 / 1000;
}

days_per_year_le : (year : ℕ) → days_per_year year ≤ 366
unfolding days_per_year
days_per_year_le year = ground arith

stored_lem :
    (tick t : ℕ) (tm : Tm)
    → IsDate tm
    → Counts tm t
    → tm.year + 1900 < 65536
    → stored_date tick tm ≡ exact tick tm
stored_lem tick t tm d c y =
    let year : (tm.year + 1900) % 65536 ≡ tm.year + 1900 = omega (arith, y) in
    let month : (tm.mon + 1) % 65536 ≡ tm.mon + 1 = omega (arith, d.mon_lt) in
    let day : tm.mday % 65536 ≡ tm.mday =
      omega (arith, c.of_year, d.yday_lt, days_per_year_le (tm.year + 1900)) in
    let hour : tm.hour % 65536 ≡ tm.hour = omega (arith, d.hour_lt) in
    let minute : tm.min % 65536 ≡ tm.min = omega (arith, d.min_lt) in
    let second : tm.sec % 65536 ≡ tm.sec = omega (arith, d.sec_lt) in
    let ms : tick % 1000000 / 1000 % 65536 ≡ tick % 1000000 / 1000 = omega arith in
    rw (year, month, day, hour, minute, second, ms) refl

-- Every time since 1970 has a systemtime: it is stored from a date whose fields are in range and
-- which counts exactly the seconds of the timestamp, by the program's lengths of years and months and
-- by the Gregorian calendar, stated apart from them; and up to the year 65535 each field is that of
-- the date, or the milliseconds.
pub to_systemtime-Counts :
    (tick : ℕ)
    → (tm : Tm) × (to_systemtime tick ≡ some (stored_date tick tm))
      × IsDate tm
      × Counts tm (to_time_t tick)
      × IsGregorian tm (to_time_t tick)
      × (tm.year + 1900 < 65536 → stored_date tick tm ≡ exact tick tm)
unfolding to_systemtime
to_systemtime-Counts tick =
    let (tm, e, d, c, g) = convert_to-Counts (to_time_t tick) in
    (tm, rw (to_systemtime, e) refl, d, c, g, λ y. stored_lem tick (to_time_t tick) tm d c y)
