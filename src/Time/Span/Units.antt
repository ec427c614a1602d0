-- ===== src/Time/Span/Units.antt =====
-- The units of `timespan`: making a span and measuring it.
use deprecated_tcode.Common.{ℕ, zero, suc, ◌*◌, ◌/◌, ◌≡◌, refl, arith, ap}
use deprecated_tcode.Common.Int.{ℤ, pos, negsuc, ◌*ℤ◌}
use deprecated_tcode.Common.Words.{negate}
use deprecated_tcode.Time.Span.{
  quot, days, hours, minutes, seconds, milliseconds, microseconds, total_days, total_hours,
  total_minutes, total_seconds, total_milliseconds, total_microseconds,
}

mul-pos : (n k : ℕ) → pos n *ℤ pos k ≡ pos (n * k)
unfolding ◌*ℤ◌
mul-pos n k = ground arith

mul-negate : (n k : ℕ) → negate (pos n) *ℤ pos k ≡ negate (pos (n * k))
unfolding ◌*ℤ◌ negate
mul-negate zero k = ground arith
mul-negate (suc n) zero = grind arith
mul-negate (suc n) (suc k) = grind arith

quot-negate : (n k : ℕ) → quot (negate (pos n)) k ≡ negate (pos (n / k))
unfolding quot negate
quot-negate zero k = grind arith
quot-negate (suc n) k = refl

-- An integer is a natural number or minus one.
sign_cases :
    (P : ℤ → Type 0) → ((n : ℕ) → P (pos n)) → ((n : ℕ) → P (negate (pos n))) → (c : ℤ) → P c
unfolding negate
sign_cases P p q (pos n) = p n
sign_cases P p q (negsuc n) = q (suc n)

ruleset products = (mul-pos, mul-negate, quot-negate)

-- A span made of a number of any unit measures that number in the unit, for either sign.
pub total-units :
    (c : ℤ)
    → (total_days (days c) ≡ c)
      × (total_hours (hours c) ≡ c)
      × (total_minutes (minutes c) ≡ c)
      × (total_seconds (seconds c) ≡ c)
      × (total_milliseconds (milliseconds c) ≡ c)
      × (total_microseconds (microseconds c) ≡ c)
unfolding total_days total_hours total_minutes total_seconds total_milliseconds total_microseconds
    days hours minutes seconds milliseconds microseconds
total-units =
    sign_cases _
      (λ n. (
        simp products (unfold quot in ground arith),
        simp products (unfold quot in ground arith),
        simp products (unfold quot in ground arith),
        simp products (unfold quot in ground arith),
        simp products (unfold quot in ground arith),
        refl,
      ))
      (λ n. (
        simp products (ap (λ x. negate (pos x)) (omega arith)),
        simp products (ap (λ x. negate (pos x)) (omega arith)),
        simp products (ap (λ x. negate (pos x)) (omega arith)),
        simp products (ap (λ x. negate (pos x)) (omega arith)),
        simp products (ap (λ x. negate (pos x)) (omega arith)),
        refl,
      ))
