-- ===== src/Time/Tests.antt =====
-- Spans, points of time and dates at concrete inputs.
use deprecated_tcode.Common.{◌+◌, ◌<◌, ◌≡◌, refl, some}
use deprecated_tcode.Time.Calendar.{
  Tm, convert_to, year_loop, month_loop, month_table, days_per_year, fill,
}
use deprecated_tcode.Time.Calendar.Date.{IsDate, Counts, IsGregorian}
use deprecated_tcode.Time.Calendar.Forms.{
  to_time_t, to_systemtime, stored_date, exact, to_systemtime-Counts, to_filetime,
}

-- 2016-02-29 12:34:56 was a Monday.
leap_day :
    convert_to 1456749296
    ≡ some (record {
      sec = 56;
      min = 34;
      hour = 12;
      mday = 29;
      mon = 1;
      year = 116;
      wday = 1;
      yday = 59;
      isdst = 0;
    })
unfolding convert_to year_loop month_loop month_table days_per_year fill
leap_day = refl

to_systemtime-Counts_example :
    (tm : Tm) × (to_systemtime 1456749296789123 ≡ some (stored_date 1456749296789123 tm))
    × IsDate tm
    × Counts tm (to_time_t 1456749296789123)
    × IsGregorian tm (to_time_t 1456749296789123)
    × (tm.year + 1900 < 65536 → stored_date 1456749296789123 tm ≡ exact 1456749296789123 tm)
to_systemtime-Counts_example = to_systemtime-Counts 1456749296789123

-- 1970-01-01 as a file time: the middle 16 bits are lost.
to_filetime-epoch : to_filetime 0 ≡ record { high = 27111902; low = 32768 }
unfolding to_filetime
to_filetime-epoch = refl
