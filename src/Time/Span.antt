-- ===== src/Time/Span.antt =====
-- `timespan` of src/time/timespan.cpp: a signed count of microseconds. The count is an int64 whose
-- overflow is undefined, so it is an integer here; what is proved is meant where nothing overflows.
pub mod Units
use deprecated_tcode.Common.{
  ℕ, zero, suc, ◌*◌, ◌/◌, Bool, not, ◌==◌, Option, none, some, if◌then◌else◌,
}
use deprecated_tcode.Common.Int.{ℤ, pos, negsuc, ltb_ℤ, pos_part, neg_part, ◌+ℤ◌, ◌-ℤ◌, ◌*ℤ◌}
use deprecated_tcode.Common.Words.{negate}

pub record Timespan : Type 0 where
  pub delta : ℤ

abbrev pub timespan : ℤ → Timespan
timespan d = record { delta = d }

abbrev pub eq_ℤ : ℤ → ℤ → Bool
eq_ℤ (pos a) (pos b) = a == b
eq_ℤ (pos a) (negsuc b) = Bool.false
eq_ℤ (negsuc a) (pos b) = Bool.false
eq_ℤ (negsuc a) (negsuc b) = a == b

-- C++'s quotient by a positive number, cut towards zero.
unfoldable pub quot : ℤ → ℕ → ℤ
quot (pos n) k = pos (n / k)
quot (negsuc n) k = negate (pos (suc n / k))

-- C++'s quotient of integers; a divisor 0 is undefined.
unfoldable pub quot_ℤ : ℤ → ℤ → Option ℤ
quot_ℤ a (pos zero) = none
quot_ℤ a (pos (suc k)) = some (quot a (suc k))
quot_ℤ a (negsuc k) = some (negate (quot a (suc k)))

unfoldable pub equal : Timespan → Timespan → Bool
equal a b = eq_ℤ a.delta b.delta

unfoldable pub less : Timespan → Timespan → Bool
less a b = ltb_ℤ a.delta b.delta

unfoldable pub less_equal : Timespan → Timespan → Bool
less_equal a b = not (ltb_ℤ b.delta a.delta)

unfoldable pub plus : Timespan → Timespan → Timespan
plus a b = timespan (a.delta +ℤ b.delta)

unfoldable pub minus : Timespan → Timespan → Timespan
minus a b = timespan (a.delta -ℤ b.delta)

unfoldable pub times : Timespan → ℤ → Timespan
times a n = timespan (a.delta *ℤ n)

unfoldable pub divide : Timespan → ℤ → Option Timespan
divide a n = elim (quot_ℤ a.delta n) [ none ↦ none | some q ↦ some (timespan q) ]

-- `operator/( const timespan& )`, 0 for an empty divisor.
unfoldable pub ratio : Timespan → Timespan → ℤ
ratio a b = elim (quot_ℤ a.delta b.delta) [ none ↦ pos 0 | some q ↦ q ]

unfoldable pub opposite : Timespan → Timespan
opposite a = timespan (negate a.delta)

unfoldable pub total_days : Timespan → ℤ
total_days a = quot a.delta (24 * 60 * 60 * 1000 * 1000)

unfoldable pub total_hours : Timespan → ℤ
total_hours a = quot a.delta (60 * 60 * 1000 * 1000)

unfoldable pub total_minutes : Timespan → ℤ
total_minutes a = quot a.delta (60 * 1000 * 1000)

unfoldable pub total_seconds : Timespan → ℤ
total_seconds a = quot a.delta (1000 * 1000)

unfoldable pub total_milliseconds : Timespan → ℤ
total_milliseconds a = quot a.delta 1000

unfoldable pub total_microseconds : Timespan → ℤ
total_microseconds a = a.delta

unfoldable pub days : ℤ → Timespan
days c = timespan (c *ℤ pos 24 *ℤ pos 60 *ℤ pos 60 *ℤ pos 1000 *ℤ pos 1000)

unfoldable pub hours : ℤ → Timespan
hours c = timespan (c *ℤ pos 60 *ℤ pos 60 *ℤ pos 1000 *ℤ pos 1000)

unfoldable pub minutes : ℤ → Timespan
minutes c = timespan (c *ℤ pos 60 *ℤ pos 1000 *ℤ pos 1000)

unfoldable pub seconds : ℤ → Timespan
seconds c = timespan (c *ℤ pos 1000 *ℤ pos 1000)

unfoldable pub milliseconds : ℤ → Timespan
milliseconds c = timespan (c *ℤ pos 1000)

unfoldable pub microseconds : ℤ → Timespan
microseconds c = timespan c
