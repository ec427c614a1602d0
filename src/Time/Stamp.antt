-- ===== src/Time/Stamp.antt =====
-- `timestamp` of src/time/timestamp.cpp: microseconds since 1970, UTC, as an integer (an int64 in
-- the source, whose overflow is undefined).
pub mod Laws
use deprecated_tcode.Common.{ℕ, ◌/◌, Bool, not, Option, none, some}
use deprecated_tcode.Common.Int.{ℤ, pos, ltb_ℤ, ◌+ℤ◌, ◌-ℤ◌, ◌*ℤ◌}
use deprecated_tcode.Time.Span.{Timespan, timespan, eq_ℤ, quot, total_microseconds}

pub record Timestamp : Type 0 where
  pub tick : ℤ

abbrev pub timestamp : ℤ → Timestamp
timestamp t = record { tick = t }

unfoldable pub equal : Timestamp → Timestamp → Bool
equal a b = eq_ℤ a.tick b.tick

unfoldable pub less : Timestamp → Timestamp → Bool
less a b = ltb_ℤ a.tick b.tick

unfoldable pub less_equal : Timestamp → Timestamp → Bool
less_equal a b = not (ltb_ℤ b.tick a.tick)

unfoldable pub plus : Timestamp → Timespan → Timestamp
unfolding total_microseconds
plus t d = timestamp (t.tick +ℤ total_microseconds d)

unfoldable pub minus : Timestamp → Timespan → Timestamp
unfolding total_microseconds
minus t d = timestamp (t.tick -ℤ total_microseconds d)

-- `operator-( const timestamp& )`.
unfoldable pub since : Timestamp → Timestamp → Timespan
since a b = timespan (a.tick -ℤ b.tick)

-- `timestamp::now` on Linux, from what `clock_gettime` stores, or `std::time` where it fails.
unfoldable pub now : (clock : Option (ℤ × ℕ)) → (time : ℤ) → Timestamp
now none time = timestamp (time *ℤ pos 1000 *ℤ pos 1000)
now (some (sec, nsec)) time = timestamp ((sec *ℤ pos 1000 *ℤ pos 1000) +ℤ pos (nsec / 1000))
